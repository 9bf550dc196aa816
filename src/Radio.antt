-- ===== src/Radio.antt =====
-- The coordinator as the hub calls it: the methods of goznp's `adapter.Adapter`, a library that is
-- not part of the repository, as a parameter. `World` is all that these calls may read and change;
-- an `error` is `none` for nil. Arguments that are the same constants in every call are left out, as the
-- coordinator's endpoint 1 of `bind` and the intervals of `configure_occupancy`.
use zigbeemq.Prelude.{ℕ, Bool, Option, List}
use zigbeemq.Zigbee.{
  ReadResult, Message, WriteResult, Outgoing, NetworkInfo, InterviewResult, RawDevice,
}
use zigbeemq.Errors.{Error, Reply}

pub record Radio (World : Type 0) : Type 0 where
  pub get_devices : World → World × Reply (List RawDevice)
  pub turn_on : World → ℕ → ℕ → World × Option Error
  pub turn_off : World → ℕ → ℕ → World × Option Error
  pub toggle : World → ℕ → ℕ → World × Option Error
  pub set_brightness : World → ℕ → ℕ → ℕ → ℕ → World × Option Error
  pub get_on_off_state : World → ℕ → ℕ → World × Reply Bool
  pub get_brightness : World → ℕ → ℕ → World × Reply ℕ
  pub read_attributes : World → ℕ → ℕ → ℕ → ℕ → World × Reply (List ReadResult)
  pub get_ias_zone_status : World → ℕ → ℕ → World × Reply (Bool × Bool)
  pub interview_device : World → ℕ → List ℕ → World × Reply InterviewResult
  pub remove_device : World → ℕ → List ℕ → World × Option Error
  pub force_remove_device : World → List ℕ → World × Option Error
  pub permit_join : World → ℕ → World × Option Error
  pub bind : World → List ℕ → ℕ → ℕ → ℕ → List ℕ → World × Option Error
  pub write_cie_address : World → ℕ → ℕ → List ℕ → World × Option Error
  pub configure_occupancy : World → ℕ → ℕ → World × Option Error
  pub enroll_ias_zone : World → ℕ → ℕ → ℕ → World × Option Error
  pub get_network_info : World → World × Reply NetworkInfo
  pub get_coordinator_ieee : World → World × Reply (List ℕ)

-- What happens while the hub waits for an answer: a message comes in, the loop that waits takes one
-- from its channel, or the context of the call ends with an error. The list of the moments ends where
-- the timer of the wait fires.
pub data Moment : Type 0 where
  hears : Message → Moment
  takes : Moment
  gives_up : Error → Moment

-- The client of the ZNP protocol below the adapter. `present` says that there is one; `builds` gives
-- the error with which the library refuses to build a frame; the numbers that requests and confirms
-- give are their status.
pub record Link (World : Type 0) : Type 0 where
  pub present : Bool
  pub builds : Outgoing → Option Error
  pub data_request : World → ℕ → ℕ → ℕ → ℕ → Outgoing → World × Reply ℕ
  pub data_confirm : World → ℕ → World × Reply ℕ
  pub moments : World → World × List Moment
  pub parse_read_response : List ℕ → Reply (List ReadResult)
  pub parse_write_response : List ℕ → Reply (List WriteResult)
  pub af_delete : World → ℕ → World
  pub af_register : World → World × Reply ℕ
