-- ===== src/Web.antt =====
-- The HTTP interface (internal/web/server.go): one function for each handler of the API, from the hub
-- and the world to the response. Reading JSON is a parameter.
pub mod Laws
pub mod Status
pub mod Stream
use zigbeemq.Prelude.{if◌then◌else◌, Str, codes, ℕ, Bool, true, false, Option, none, some, List}
use zigbeemq.Zigbee.{NetworkInfo, Goznp}
use zigbeemq.Known.{Kind}
use zigbeemq.Ieee.{format_ieee}
use zigbeemq.Errors.{Error, Reply, ok, err, error_text, is_not_found, is_not_relay, is_relay_input}
use zigbeemq.Device.{Relay, Device}
use zigbeemq.Radio.{Radio, Link}
use zigbeemq.Hub.{Hub, must_device, snapshot}
use zigbeemq.Hub.Control.{turn, set_brightness, toggle, permit_join_for}
use zigbeemq.Hub.Registry.{update, Finder, remove, refresh}
use zigbeemq.Hub.Registry.Interview.{interview}
use zigbeemq.Hub.Start.{network}
use zigbeemq.Relay.Patch.{RelayPatch}
use zigbeemq.Relay.Settings.{read_relay, apply_relay}

-- The JSON values that the handlers send.
pub data Body : Type 0 where
  error_body ok_body : Str → Body
  network_body : Str → NetworkInfo → Body
  devices_body : List Device → Option (Option ℕ) → Body
  percent_body seconds_body : ℕ → Body
  relay_body : Relay → Body
  device_body : Device → Body

pub record Response : Type 0 where
  pub status : ℕ
  pub body : Body

-- The body of `PATCH /api/devices/{ieee}`.
pub record Change : Type 0 where
  pub name : Str
  pub kind : Kind
  pub archived : Option Bool

-- Decoding JSON. `seconds` is what decoding leaves of a field that was 60, as its error is passed
-- over.
pub record Decoder : Type 0 where
  pub percent : Str → Reply ℕ
  pub patch : Str → Reply RelayPatch
  pub change : Str → Reply Change
  pub seconds : Str → ℕ

abbrev pub respond : ℕ → Body → Response
respond status body = record { status = status; body = body }

-- A request to the API, with the address in its path and its body.
pub data Request : Type 0 where
  network_request devices_request refresh_request : Request
  permit_request : Str → Request
  on_request off_request toggle_request relay_request interview_request remove_request :
      Str → Request
  brightness_request patch_request update_request : Str → Str → Request

-- `writeErr`.
abbrev pub write_err : ℕ → Error → Response
write_err status e = respond status (error_body (error_text e))

-- `deviceStatus`.
pub device_status : Error → ℕ
device_status e =
    if is_not_found e
    then 404
    else if is_not_relay e
    then 400
    else if is_relay_input e
    then 400
    else 502

-- The status of an error in the handlers that do not call `deviceStatus`.
abbrev pub missing_or : ℕ → Error → ℕ
missing_or status e = if is_not_found e then 404 else status

-- What a handler leaves behind and answers.
abbrev Answered : Type 0 → Type 0
Answered World = Hub × World × Response

abbrev pub answer_to : Option Error → (Error → ℕ) → Body → Response
answer_to none status body = respond 200 body
answer_to (some e) status body = write_err (status e) e

module _ {World : Type 0} (z : Goznp) (f : Finder) (r : Radio World) (link : Link World)
    (decode : Decoder) where
  -- `network`.
  pub get_network : ℕ → ℕ → Hub → World → Answered World
  get_network now later h w =
      let (h', w', reply) = network r now later h w in
      elim reply [
        | err e ↦ (h', w', write_err 502 e)
        | ok info ↦ (h', w', respond 200 (network_body (format_ieee z info.ieee_addr) info))
      ]

  -- `devices`.
  pub get_devices : Hub → World → Answered World
  get_devices h w = (h, w, respond 200 (devices_body (snapshot h) (some h.permit_until)))

  -- `on` and `off`.
  pub post_on : Str → ℕ → Hub → World → Answered World
  post_on ieee now h w =
      let (h', w', error) = turn z r ieee true now h w in
      (h', w', answer_to error (missing_or 502) (ok_body (codes "on")))

  pub post_off : Str → ℕ → Hub → World → Answered World
  post_off ieee now h w =
      let (h', w', error) = turn z r ieee false now h w in
      (h', w', answer_to error (missing_or 502) (ok_body (codes "off")))

  -- `brightness`.
  pub post_brightness : Str → Str → ℕ → Hub → World → Answered World
  post_brightness ieee text now h w = elim (decode.percent text) [
    | err e ↦ (h, w, write_err 400 e)
    | ok percent ↦
        let (h', w', error) = set_brightness z r ieee percent now h w in
        (h', w', answer_to error (missing_or 502) (percent_body percent))
  ]

  -- `toggle`.
  pub post_toggle : Str → ℕ → Hub → World → Answered World
  post_toggle ieee now h w =
      let (h', w', error) = toggle z r ieee now h w in
      (h', w', answer_to error device_status (ok_body (codes "toggle")))

  abbrev pub relay_answer : Hub × World × Reply Relay → Answered World
  relay_answer (h, w, ok settings) = (h, w, respond 200 (relay_body settings))
  relay_answer (h, w, err e) = (h, w, write_err (device_status e) e)

  -- `readRelay`.
  pub get_relay : Str → ℕ → Hub → World → Answered World
  get_relay ieee now h w = relay_answer (read_relay z link ieee now h w)

  -- `patchRelay`.
  pub patch_relay : Str → Str → ℕ → Hub → World → Answered World
  patch_relay ieee text now h w = elim (decode.patch text) [
    | err e ↦ (h, w, write_err 400 e)
    | ok p ↦ relay_answer (apply_relay z link ieee p now h w)
  ]

  -- `interview`.
  pub post_interview : Str → ℕ → Hub → World → Answered World
  post_interview ieee now h w =
      let (h', w', error) = interview z f r ieee now h w in
      (h', w', answer_to error (missing_or 502) (device_body (must_device h' ieee)))

  -- `update`.
  pub patch_device : Str → Str → Hub → World → Answered World
  patch_device ieee text h w = elim (decode.change text) [
    | err e ↦ (h, w, write_err 400 e)
    | ok c ↦
        let (h', error) = update ieee c.name c.kind c.archived h in
        (h', w, answer_to error (missing_or 400) (device_body (must_device h' ieee)))
  ]

  -- `remove`.
  pub delete_device : Str → Hub → World → Answered World
  delete_device ieee h w =
      let (h', w', error) = remove z f r ieee h w in
      (h', w', answer_to error (missing_or 502) (ok_body (codes "removed")))

  -- `permitJoin`.
  pub post_permit_join : Str → ℕ → Hub → World → Answered World
  post_permit_join text now h w =
      let seconds = decode.seconds text in
      let (h', w', error) = permit_join_for z r seconds now h w in
      (h', w', answer_to error (λ e. 502) (seconds_body seconds))

  -- `refresh`.
  pub post_refresh : Hub → World → Answered World
  post_refresh h w =
      let (h', w', error) = refresh z r h w in
      (h', w', answer_to error (λ e. 502) (devices_body (snapshot h') none))

  -- The routes of `New`, without the files and the stream of events.
  pub serve : Request → ℕ → Hub → World → Answered World
  serve network_request now h w = get_network now now h w
  serve devices_request now h w = get_devices h w
  serve refresh_request now h w = post_refresh h w
  serve (permit_request text) now h w = post_permit_join text now h w
  serve (on_request ieee) now h w = post_on ieee now h w
  serve (off_request ieee) now h w = post_off ieee now h w
  serve (toggle_request ieee) now h w = post_toggle ieee now h w
  serve (relay_request ieee) now h w = get_relay ieee now h w
  serve (interview_request ieee) now h w = post_interview ieee now h w
  serve (remove_request ieee) now h w = delete_device ieee h w
  serve (brightness_request ieee text) now h w = post_brightness ieee text now h w
  serve (patch_request ieee text) now h w = patch_relay ieee text now h w
  serve (update_request ieee text) now h w = patch_device ieee text h w
