-- ===== src/Db/Text/Tests.antt =====
-- The texts of src/db/models.rs at concrete numbers.
use v3_node.Base.{◌≡◌, refl, some}
use v3_node.Base.Int.{negsuc}
use v3_node.Db.Text.{codes, lower_hex, u128_to_hex, u256_to_hex, i128_to_str}
use v3_node.Db.Text.RoundTrip.{read_hex, read_int, stored_texts_read}

prints_hex : u128_to_hex 0xdeadbeef ≡ codes "0xdeadbeef"
unfolding u128_to_hex
prints_hex = refl

prints_zero : u128_to_hex 0 ≡ codes "0x0"
unfolding u128_to_hex
prints_zero = refl

prints_sign : i128_to_str (negsuc 41) ≡ codes "-42"
unfolding i128_to_str
prints_sign = refl

stored_texts_read_example :
    (read_hex (u128_to_hex 0xdeadbeef) ≡ some 0xdeadbeef)
    × (read_hex (u256_to_hex lower_hex 77) ≡ some 77)
    × (read_int (i128_to_str (negsuc 41)) ≡ some (negsuc 41))
stored_texts_read_example = stored_texts_read lower_hex 0xdeadbeef 77 (negsuc 41) refl
