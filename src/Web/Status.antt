-- ===== src/Web/Status.antt =====
-- The statuses of the HTTP interface (internal/web/server.go), and what the settings of relays and
-- the brightness are answered with.
use zigbeemq.Prelude.{
  ltb, Bool-cases, Str, str_eq_iff, lookup, ℕ, ◌≤◌, ◌≡◌, refl, ◌↔◌, ◌⊎◌, inl, inr, Bool, true,
  false, ◌||◌, Option, none, some, arith,
}
use zigbeemq.Zigbee.{Goznp}
use zigbeemq.Errors.{
  Error, not_found, unavailable, not_relay, relay_input, deadline, message, Reply, ok, err,
  is_not_found, is_not_relay, is_relay_input, Reply-cases,
}
use zigbeemq.Device.{Relay, Device, is_sonoff_mini}
use zigbeemq.Radio.{Radio, Link}
use zigbeemq.Hub.{Hub, find, must_device}
use zigbeemq.Hub.Registry.{update, Finder}
use zigbeemq.Relay.Settings.Refused.{
  IsRefusal, missing, other_kind, bad_input, closed, IsAccepted, apply_relay_checked,
}
use zigbeemq.Ieee.{compact_ieee, format_ieee}
use zigbeemq.Hub.Control.{level_of_percent, clamp_percent, touched, set_brightness}
use zigbeemq.Hub.Control.Commands.{set_brightness_done}
use zigbeemq.Hub.Start.{network}
use zigbeemq.Relay.Patch.{RelayPatch, patch_is_empty, patch_values}
use zigbeemq.Relay.Settings.{apply_relay}
use zigbeemq.Web.{
  Body, error_body, network_body, percent_body, device_body, Response, Decoder, respond, Request,
  network_request, devices_request, refresh_request, permit_request, on_request, off_request,
  toggle_request, relay_request, interview_request, remove_request, brightness_request,
  patch_request, update_request, write_err, device_status, missing_or, answer_to, get_network,
  get_devices, post_on, post_off, post_brightness, post_toggle, relay_answer, get_relay,
  patch_relay, post_interview, patch_device, delete_device, post_permit_join, post_refresh, serve,
}

abbrev is_error : Body → Bool
is_error (error_body _) = true
is_error _ = false

-- A status of the interface for an error.
abbrev IsErrorStatus : ℕ → Type 0
IsErrorStatus status = (status ≡ 400) ⊎ ((status ≡ 404) ⊎ (status ≡ 502))

-- Status 200 with a body that is no error, or the status of an error with the text of an error.
abbrev IsStatus : Response → Type 0
IsStatus response =
    ((response.status ≡ 200) × (is_error response.body ≡ false))
    ⊎ (IsErrorStatus response.status × (is_error response.body ≡ true))

answer_to-IsStatus :
    (error : Option Error) (status : Error → ℕ) (body : Body)
    → is_error body ≡ false
    → ((e : Error) → IsErrorStatus (status e))
    → IsStatus (answer_to error status body)
answer_to-IsStatus none status body h k = inl (refl, h)
answer_to-IsStatus (some e) status body h k = inr (k e, refl)

missing_or-IsErrorStatus :
    (status : ℕ) (e : Error) → IsErrorStatus status → IsErrorStatus (missing_or status e)
missing_or-IsErrorStatus status e h = elim (Bool-cases (is_not_found e)) [
  | inl lost ↦ inr (inl (ground arith))
  | inr found ↦ rw found h
]

device_status-IsErrorStatus : (e : Error) → IsErrorStatus (device_status e)
unfolding device_status
device_status-IsErrorStatus e = elim (Bool-cases (is_not_found e)) [
  | inl lost ↦ inr (inl (ground arith))
  | inr found ↦ elim (Bool-cases (is_not_relay e || is_relay_input e)) [
    | inl bad ↦ inl (ground arith)
    | inr left ↦ inr (inr (ground arith))
  ]
]

relay_answer-IsStatus :
    {World : Type 0} (z : Goznp) (f : Finder) (r : Radio World) (link : Link World)
    (decode : Decoder) (reply : Hub × World × Reply Relay)
    → IsStatus (relay_answer z f r link decode reply).2
relay_answer-IsStatus z f r link decode (h, w, ok settings) = inl (refl, refl)
relay_answer-IsStatus z f r link decode (h, w, err e) = inr (device_status-IsErrorStatus e, refl)

module _ {World : Type 0} (z : Goznp) (f : Finder) (r : Radio World) (link : Link World)
    (decode : Decoder) where
  -- Every answer of the API has status 200 and a body that is no error, or status 400, 404 or 502
  -- and the text of an error.
  serve-IsStatus :
      (req : Request) (now : ℕ) (h : Hub) (w : World)
      → IsStatus (serve z f r link decode req now h w).2
  unfolding serve post_on post_off post_toggle get_relay post_interview delete_device get_devices
      post_refresh post_permit_join get_network
  serve-IsStatus (on_request i) now h w =
      answer_to-IsStatus _ _ _ refl (λ e. missing_or-IsErrorStatus 502 e (inr (inr refl)))
  serve-IsStatus (off_request i) now h w =
      answer_to-IsStatus _ _ _ refl (λ e. missing_or-IsErrorStatus 502 e (inr (inr refl)))
  serve-IsStatus (toggle_request i) now h w =
      answer_to-IsStatus _ _ _ refl device_status-IsErrorStatus
  serve-IsStatus (relay_request i) now h w = relay_answer-IsStatus z f r link decode _
  serve-IsStatus (interview_request i) now h w =
      answer_to-IsStatus _ _ _ refl (λ e. missing_or-IsErrorStatus 502 e (inr (inr refl)))
  serve-IsStatus (remove_request i) now h w =
      answer_to-IsStatus _ _ _ refl (λ e. missing_or-IsErrorStatus 502 e (inr (inr refl)))
  serve-IsStatus (brightness_request i text) now h w = elim (Reply-cases (decode.percent text)) [
    | inl (percent, good) ↦
        let same : (post_brightness z f r link decode i text now h w).2
            ≡ answer_to (set_brightness z r i percent now h w).2 (missing_or 502)
                (percent_body percent) =
          unfold post_brightness in ground arith in
        rw same
          (answer_to-IsStatus _ _ _ refl (λ e. missing_or-IsErrorStatus 502 e (inr (inr refl))))
    | inr (e, bad) ↦
        let same : (post_brightness z f r link decode i text now h w).2 ≡ write_err 400 e =
          unfold post_brightness in ground arith in
        rw same (inr (inl refl, refl))
  ]
  serve-IsStatus (patch_request i text) now h w = elim (Reply-cases (decode.patch text)) [
    | inl (p, good) ↦
        let same : patch_relay z f r link decode i text now h w
            ≡ relay_answer z f r link decode (apply_relay z link i p now h w) =
          unfold patch_relay in ground arith in
        rw same (relay_answer-IsStatus z f r link decode _)
    | inr (e, bad) ↦
        let same : (patch_relay z f r link decode i text now h w).2 ≡ write_err 400 e =
          unfold patch_relay in ground arith in
        rw same (inr (inl refl, refl))
  ]
  serve-IsStatus (update_request i text) now h w = elim (Reply-cases (decode.change text)) [
    | inl (c, good) ↦
        let done = update i c.name c.kind c.archived h in
        let same : (patch_device z f r link decode i text h w).2
            ≡ answer_to done.1 (missing_or 400) (device_body (must_device done.0 i)) =
          unfold patch_device in ground arith in
        rw same (answer_to-IsStatus _ _ _ refl (λ e. missing_or-IsErrorStatus 400 e (inl refl)))
    | inr (e, bad) ↦
        let same : (patch_device z f r link decode i text h w).2 ≡ write_err 400 e =
          unfold patch_device in ground arith in
        rw same (inr (inl refl, refl))
  ]
  serve-IsStatus network_request now h w = elim (Reply-cases (network r now now h w).2) [
    | inl (info, good) ↦
        let same : (get_network z f r link decode now now h w).2
            ≡ respond 200 (network_body (format_ieee z info.ieee_addr) info) =
          unfold get_network in ground arith in
        rw same (inl (refl, refl))
    | inr (e, bad) ↦
        let same : (get_network z f r link decode now now h w).2 ≡ write_err 502 e =
          unfold get_network in ground arith in
        rw same (inr (inr (inr refl), refl))
  ]
  serve-IsStatus devices_request now h w = inl (refl, refl)
  serve-IsStatus refresh_request now h w = answer_to-IsStatus _ _ _ refl (λ e. inr (inr refl))
  serve-IsStatus (permit_request text) now h w = answer_to-IsStatus _ _ _ refl (λ e. inr (inr refl))

-- How the interface refuses a patch.
pub data IsRefusedAs (h : Hub) (ieee : Str) (p : RelayPatch) : ℕ → Type 0 where
  as_unknown : find h ieee ≡ none → IsRefusedAs h ieee p 404
  as_unfit :
      (is_sonoff_mini (must_device h ieee) ≡ false)
        ⊎ ((patch_is_empty p ≡ true) ⊎ ((e : Error) × (patch_values p ≡ err e)))
      → IsRefusedAs h ieee p 400
  as_closed : h.open_adapter ≡ false → IsRefusedAs h ieee p 502

input_status : (e : Error) → is_relay_input e ≡ true → device_status e ≡ 400
unfolding device_status
input_status (relay_input text) i = refl
input_status not_found i = ground arith
input_status not_relay i = ground arith
input_status unavailable i = ground arith
input_status (deadline text) i = ground arith
input_status (message text) i = ground arith

IsRefusedAs-of_refusal :
    (h : Hub) (ieee : Str) (p : RelayPatch) (e : Error)
    → IsRefusal h ieee p e
    → IsRefusedAs h ieee p (device_status e)
unfolding must_device device_status
IsRefusedAs-of_refusal h ieee p e (missing absent) = as_unknown absent
IsRefusedAs-of_refusal h ieee p e (other_kind d found unlike) = as_unfit (inl (ground arith))
IsRefusedAs-of_refusal h ieee p e (bad_input _ input why) =
    rw (input_status e input)
      (as_unfit (elim why [ inl empty ↦ inr (inl empty) | inr bad ↦ inr (inr (e, bad)) ]))
IsRefusedAs-of_refusal h ieee p e (closed shut) = as_closed shut

module _ {World : Type 0} (z : Goznp) (f : Finder) (r : Radio World) (link : Link World)
    (decode : Decoder) (ieee text : Str) (now : ℕ) (h : Hub) (w : World) where
  -- A patch that can be decoded is refused without a change of the hub and without a call of the
  -- radio, with status 404 for a device that the hub does not know, 400 for one that is no
  -- ZBMINIR2, for an empty patch and for a value out of range, 502 while the adapter is closed; or
  -- none of these reasons holds.
  pub patch_relay_refused :
      (p : RelayPatch)
      → decode.patch text ≡ ok p
      → IsAccepted h ieee p
        ⊎ ((e : Error) × (IsRefusedAs h ieee p (device_status e)
              × (patch_relay z f r link decode ieee text now h w
                  ≡ (h, w, write_err (device_status e) e))))
  unfolding patch_relay
  patch_relay_refused p good = elim (apply_relay_checked z link ieee p now h w) [
    | inr accepted ↦ inl accepted
    | inl (e, why, same) ↦ inr (e, (IsRefusedAs-of_refusal h ieee p e why, ground arith))
  ]

  -- Where the radio sets the brightness of a known device, the answer repeats the percentage of the
  -- request; the hub holds the same percentage exactly if it is at most 100.
  pub brightness_answer :
      (percent : ℕ) (d : Device) (w' : World)
      → decode.percent text ≡ ok percent
      → find h ieee ≡ some d
      → r.set_brightness w d.nwk_addr d.endpoint (level_of_percent (clamp_percent percent)) 5
        ≡ (w', none)
      → let (h', w'', response) = post_brightness z f r link decode ieee text now h w in
        (response ≡ respond 200 (percent_body percent))
        × (((must_device h' ieee).brightness ≡ some percent) ↔ (percent ≤ 100))
  unfolding post_brightness must_device find
  brightness_answer percent d w' good found set =
      let done = set_brightness z r ieee percent now h w in
      let law = set_brightness_done z r ieee now h w percent d w' found set in
      let key = compact_ieee ieee in
      let p = clamp_percent percent in
      let held : lookup key done.0.devices
          ≡ some (record (touched now d) { brightness = some p; on = some (ltb 0 p) }) =
        ground (arith, law.0 key, str_eq_iff key key) in
      (ground arith, (λ e. ground (arith, held), λ e. ground (arith, held)))
