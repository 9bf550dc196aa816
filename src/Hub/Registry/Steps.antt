-- ===== src/Hub/Registry/Steps.antt =====
-- Every operation of the hub keeps the table well formed.
use zigbeemq.Prelude.{
  Bool-cases, Option-cases, Str, lookup, ℕ, ◌≡◌, refl, inl, inr, Bool, ◌&&◌, not, Option, arith,
}
use zigbeemq.Zigbee.{Goznp}
use zigbeemq.Radio.{Radio}
use zigbeemq.Errors.{Error}
use zigbeemq.Ieee.{compact_ieee, is_zero_ieee, parse_ieee}
use zigbeemq.Known.{Kind, valid_kind}
use zigbeemq.Hub.{Hub, find, modify, broadcast, broadcast_device, save_cache}
use zigbeemq.Hub.Control.{start_recovery, set_unavailable, note_unavailable}
use zigbeemq.Hub.Registry.Refresh.{known_ieee}
use zigbeemq.Hub.Registry.{is_empty, relabel, update, note_joined, Finder, remove}
use zigbeemq.Hub.Registry.Table.{
  IsValid, IsTable-enter, IsTable-leave, save_cache-IsValid, broadcast_device-IsValid, IsValid-of,
  IsValid-of_adjust, IsValid-of_same,
}

pub note_joined-IsValid :
    (ieee : Str) (nwk now : ℕ) (h : Hub)
    → compact_ieee (compact_ieee ieee) ≡ compact_ieee ieee
    → IsValid h
    → IsValid (note_joined ieee nwk now h).0
unfolding note_joined
note_joined-IsValid ieee nwk now h c t =
    let key = compact_ieee ieee in
    elim (Bool-cases (is_zero_ieee key)) [
      | inl nothing ↦ rw nothing t
      | inr fresh ↦ rw fresh (
          broadcast_device-IsValid key _ (
            save_cache-IsValid _ (
              IsTable-enter key _ h.devices h.forgotten
                (known_ieee key (lookup key h.devices) (t.keyed key)) c t)))
    ]

pub update-IsValid :
    (ieee name : Str) (kind : Kind) (archived : Option Bool) (h : Hub)
    → IsValid h
    → IsValid (update ieee name kind archived h).0
unfolding update broadcast broadcast_device modify save_cache
update-IsValid ieee name kind archived h t =
    let h' = (update ieee name kind archived h).0 in
    elim (Bool-cases (not (is_empty kind) && not (valid_kind kind))) [
      | inl bad ↦ rw bad t
      | inr good ↦ elim (Option-cases (find h ieee)) [
        | inl missing ↦ IsValid-of_same h h' (ground arith) (ground arith) t
        | inr (d, found) ↦
            IsValid-of_adjust ieee (relabel name kind archived) h h' (λ d. refl) (ground arith)
              (ground arith) t
      ]
    ]

pub note_unavailable-IsValid :
    (ieee : Str) (e : Error) (h : Hub) → IsValid h → IsValid (note_unavailable ieee e h)
unfolding note_unavailable start_recovery broadcast_device modify
note_unavailable-IsValid ieee e h t =
    IsValid-of_adjust ieee (set_unavailable e) h (note_unavailable ieee e h) (λ d. refl)
      (ground arith) (ground arith) t

pub remove-IsValid :
    {World : Type 0} (z : Goznp) (f : Finder) (r : Radio World) (ieee : Str) (h : Hub) (w : World)
    → IsValid h
    → IsValid (remove z f r ieee h w).0
unfolding remove broadcast save_cache
remove-IsValid z f r ieee h w t =
    let h' = (remove z f r ieee h w).0 in
    elim (Option-cases (find h ieee)) [
      | inl missing ↦ IsValid-of_same h h' (ground arith) (ground arith) t
      | inr (d, found) ↦ elim (Option-cases (parse_ieee z ieee)) [
        | inl bad ↦ IsValid-of_same h h' (ground arith) (ground arith) t
        | inr (addr, good) ↦
            IsValid-of _ _ h' (ground arith) (ground arith)
              (IsTable-leave (compact_ieee ieee) h.devices h.forgotten t)
      ]
    ]
