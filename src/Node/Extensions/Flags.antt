-- ===== src/Node/Extensions/Flags.antt =====
-- The flags of the extension bytes.
use feeless.Common.{◌+◌, ◌*◌, ◌/◌, ◌%◌, ◌<◌, ◌≡◌, refl, true, false, arith}
use feeless.Node.Extensions.{
  Extensions, new, query, is_query, response, is_response, item_count, block_type,
}

-- Setting a flag sets it, keeps the other flag, and leaves the second byte, with the block type and
-- the item count, alone. The first byte stays a byte, and new extensions have no flag.
pub flags_set :
    (e : Extensions)
    → e.first < 256
    → (is_query (query e) ≡ true)
      × (is_response (query e) ≡ is_response e)
      × (is_response (response e) ≡ true)
      × (is_query (response e) ≡ is_query e)
      × (item_count (query e) ≡ item_count e)
      × (item_count (response e) ≡ item_count e)
      × (block_type (query e) ≡ block_type e)
      × (block_type (response e) ≡ block_type e)
      × ((query e).first < 256)
      × ((response e).first < 256)
      × (is_query new ≡ false)
      × (is_response new ≡ false)
unfolding query is_query response is_response item_count block_type new
flags_set e h =
    let a : (e.first / 2 * 2 + 1) % 2 ≡ 1 = omega arith in
    let b : (e.first / 2 * 2 + 1) / 2 % 2 ≡ e.first / 2 % 2 = omega arith in
    let c : (e.first / 4 * 4 + 2 + e.first % 2) / 2 % 2 ≡ 1 = omega arith in
    let d : (e.first / 4 * 4 + 2 + e.first % 2) % 2 ≡ e.first % 2 = omega arith in
    (rw a, rw b, rw c, rw d, refl, refl, refl, refl, omega arith, omega arith, refl, refl)
