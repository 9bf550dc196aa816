-- ===== src/Web/Laws.antt =====
-- What the HTTP interface (internal/web/server.go) answers.
use zigbeemq.Prelude.{
  is_some, Str, ℕ, ◌≡◌, inl, inr, Bool, true, false, ◌||◌, Option, none, some, arith,
}
use zigbeemq.Zigbee.{Goznp}
use zigbeemq.Known.{valid_kind}
use zigbeemq.Errors.{not_found, ok, err, Reply-cases}
use zigbeemq.Radio.{Radio, Link}
use zigbeemq.Hub.{Hub, find}
use zigbeemq.Hub.Registry.{is_empty, update, Finder, remove}
use zigbeemq.Hub.Control.Commands.{commands_unknown}
use zigbeemq.Hub.Registry.Interview.{interview}
use zigbeemq.Relay.Call.{◌>>=◌}
use zigbeemq.Relay.Settings.{read_relay, apply_relay}
use zigbeemq.Web.{
  Decoder, Request, network_request, devices_request, refresh_request, permit_request, on_request,
  off_request, toggle_request, relay_request, interview_request, remove_request, brightness_request,
  patch_request, update_request, write_err, device_status, post_on, post_off, post_brightness,
  post_toggle, get_relay, patch_relay, post_interview, patch_device, delete_device, serve,
}

-- A request for one device whose body can be decoded and, for an update, asks for a known kind.
abbrev is_proper : Decoder → Request → Bool
is_proper decode (brightness_request ieee text) = elim (decode.percent text) [
  | ok p ↦ true
  | err e ↦ false
]
is_proper decode (patch_request ieee text) = elim (decode.patch text) [
  | ok p ↦ true
  | err e ↦ false
]
is_proper decode (update_request ieee text) = elim (decode.change text) [
  | ok c ↦ is_empty c.kind || valid_kind c.kind
  | err e ↦ false
]
is_proper decode _ = true

abbrev target_of : Request → Option Str
target_of (on_request ieee) = some ieee
target_of (off_request ieee) = some ieee
target_of (toggle_request ieee) = some ieee
target_of (relay_request ieee) = some ieee
target_of (interview_request ieee) = some ieee
target_of (remove_request ieee) = some ieee
target_of (brightness_request ieee text) = some ieee
target_of (patch_request ieee text) = some ieee
target_of (update_request ieee text) = some ieee
target_of _ = none

-- The hub knows the device that a request is for, if it is for one.
abbrev is_known : Hub → Request → Bool
is_known h req = elim (target_of req) [ none ↦ true | some ieee ↦ is_some (find h ieee) ]

unknown-find : (h : Hub) (ieee : Str) → is_some (find h ieee) ≡ false → find h ieee ≡ none
unknown-find h ieee e = ground arith

module _ {World : Type 0} (z : Goznp) (f : Finder) (r : Radio World) (link : Link World)
    (decode : Decoder) where
  brightness_unknown :
      (ieee text : Str) (now : ℕ) (h : Hub) (w : World)
      → is_proper decode (brightness_request ieee text) ≡ true
      → find h ieee ≡ none
      → post_brightness z f r link decode ieee text now h w ≡ (h, w, write_err 404 not_found)
  unfolding post_brightness
  brightness_unknown ieee text now h w p e = elim (Reply-cases (decode.percent text)) [
    | inr (x, bad) ↦ ground arith
    | inl (percent, good) ↦ ground (arith, (commands_unknown z r ieee now h w true percent e).2)
  ]

  patch_unknown :
      (ieee text : Str) (now : ℕ) (h : Hub) (w : World)
      → is_proper decode (patch_request ieee text) ≡ true
      → find h ieee ≡ none
      → patch_relay z f r link decode ieee text now h w ≡ (h, w, write_err 404 not_found)
  unfolding patch_relay apply_relay ◌>>=◌ device_status
  patch_unknown ieee text now h w p e = elim (Reply-cases (decode.patch text)) [
    | inr (x, bad) ↦ ground arith
    | inl (patch, good) ↦ ground arith
  ]

  update_unknown :
      (ieee text : Str) (h : Hub) (w : World)
      → is_proper decode (update_request ieee text) ≡ true
      → find h ieee ≡ none
      → patch_device z f r link decode ieee text h w ≡ (h, w, write_err 404 not_found)
  unfolding patch_device update
  update_unknown ieee text h w p e = elim (Reply-cases (decode.change text)) [
    | inr (x, bad) ↦ ground arith
    | inl (c, good) ↦ ground arith
  ]

  -- A request for a device that the hub does not know, with a body that can be decoded and, for an
  -- update, a known kind, changes nothing, calls no radio and is answered with status 404.
  pub unknown_404 :
      (req : Request) (now : ℕ) (h : Hub) (w : World)
      → is_proper decode req ≡ true
      → is_known h req ≡ false
      → serve z f r link decode req now h w ≡ (h, w, write_err 404 not_found)
  unfolding serve post_on post_off post_toggle get_relay post_interview delete_device interview
      remove read_relay ◌>>=◌ device_status
  unknown_404 (on_request i) now h w p e =
      ground (arith, (commands_unknown z r i now h w true 0 (unknown-find h i e)).0)
  unknown_404 (off_request i) now h w p e =
      ground (arith, (commands_unknown z r i now h w false 0 (unknown-find h i e)).0)
  unknown_404 (toggle_request i) now h w p e =
      ground (arith, (commands_unknown z r i now h w true 0 (unknown-find h i e)).1)
  unknown_404 (relay_request i) now h w p e = ground (arith, unknown-find h i e)
  unknown_404 (interview_request i) now h w p e = ground (arith, unknown-find h i e)
  unknown_404 (remove_request i) now h w p e = ground (arith, unknown-find h i e)
  unknown_404 (brightness_request i text) now h w p e =
      brightness_unknown i text now h w p (unknown-find h i e)
  unknown_404 (patch_request i text) now h w p e =
      patch_unknown i text now h w p (unknown-find h i e)
  unknown_404 (update_request i text) now h w p e = update_unknown i text h w p (unknown-find h i e)
  unknown_404 network_request now h w p e = ground arith
  unknown_404 devices_request now h w p e = ground arith
  unknown_404 refresh_request now h w p e = ground arith
  unknown_404 (permit_request text) now h w p e = ground arith
