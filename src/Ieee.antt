-- ===== src/Ieee.antt =====
-- Device addresses as keys (internal/hub/ieee.go, and `isZeroIEEE` of internal/hub/hub.go).
pub mod Laws
use zigbeemq.Prelude.{
  ◌==◌, if◌then◌else◌, length, all, Str, codes, to_lower, trim_prefix, remove_all, ℕ, Bool, true,
  not, Option, List,
}
use zigbeemq.Zigbee.{Goznp}

-- `compactIEEE`.
unfoldable pub compact_ieee : Str → Str
unfolding to_lower trim_prefix remove_all
compact_ieee s = remove_all b':' (trim_prefix (to_lower s) (codes "0x"))

-- `isZeroIEEE`.
unfoldable pub is_zero_ieee : Str → Bool
unfolding compact_ieee
is_zero_ieee ieee =
    let key = compact_ieee ieee in if not (length key == 16) then true else all (λ c. c == b'0') key

module _ (z : Goznp) where
  -- `formatIEEE`; the exported `IEEE` is the same.
  unfoldable pub format_ieee : List ℕ → Str
  unfolding compact_ieee
  format_ieee addr = compact_ieee (z.format_ieee_addr addr)

  -- `parseIEEE`.
  unfoldable pub parse_ieee : Str → Option (List ℕ)
  unfolding compact_ieee
  parse_ieee s = z.parse_ieee_addr (compact_ieee s)
