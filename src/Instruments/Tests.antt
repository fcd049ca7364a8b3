-- ===== src/Instruments/Tests.antt =====
-- Runs of the instrument manager.
use bt_api_base.Prelude.{ℕ, String, ◌≡◌, refl, Option, none, some, [], ◌∷◌}
use bt_api_base.Instruments.{Instrument, swap, empty, register, register_many, get, get_by_venue}
use bt_api_base.Instruments.Venues.{venue_sound}
use bt_api_base.Instruments.Complete.{venue_complete}

abbrev listed : String → String → Instrument ℕ
listed internal venue_symbol = record {
  internal = internal;
  venue = "OKX";
  venue_symbol = venue_symbol;
  asset_type = swap;
  underlying = some "BTC";
  other = 0;
}

abbrev btc : Instrument ℕ
btc = listed "BTC-USDT" "BTCUSDT"

abbrev moved : Instrument ℕ
moved = listed "BTC-USDT" "BTC-USDT-SWAP"

venue_sound_example :
    (get (register_many (btc ∷ moved ∷ []) empty) "BTC-USDT" ≡ some moved)
    × (moved.venue ≡ "OKX")
    × (moved.venue_symbol ≡ "BTC-USDT-SWAP")
unfolding get_by_venue register_many register
venue_sound_example = venue_sound (btc ∷ moved ∷ []) "OKX" "BTC-USDT-SWAP" moved refl

venue_complete_example :
    (btc.internal ≡ "BTC-USDT")
    × (get_by_venue (register_many (btc ∷ []) empty) btc.venue btc.venue_symbol ≡ some btc)
unfolding get register_many register
venue_complete_example =
    venue_complete (btc ∷ []) "BTC-USDT" btc (λ k j h. absurd (nothing j h), tt) refl
  where
    nothing : (j : Instrument ℕ) → ◌≡◌ {A = Option (Instrument ℕ)} none (some j) → ⊥
    nothing j h = cc
