-- ===== src/Relay/Exchange/Order.antt =====
-- The sequence numbers of exchanges, and the exchange against a search through the messages.
use mathlib.Core.List.{append_assoc, append-nil}
use zigbeemq.Prelude.{
  ltb, if◌then◌else◌, Bool-cases, length, length-append, Str, ℕ, zero, suc, ◌+◌, ◌%◌, ◌≤◌, ◌≡◌,
  refl, sym, ap, ◌∙◌, inl, inr, true, Option, none, some, List, [], ◌∷◌, ◌++◌, arith,
}
use zigbeemq.Zigbee.{Frame, Message, Goznp}
use zigbeemq.Errors.{Reply, ok, err}
use zigbeemq.Radio.{Moment, hears, takes}
use zigbeemq.Relay.Exchange.{
  open_slot, fits, note_af, next_seq, answer_in, skipped_text, wait_answer,
}
use zigbeemq.Relay.Exchange.Laws.{slot_of}

-- The number of the `n`-th exchange of a hub that starts with `s`.
seq_after : ℕ → ℕ → ℕ
seq_after zero s = s
seq_after (suc n) s = next_seq (seq_after n s)

-- A new hub numbers its exchanges 1 to 255, over and over: no number is 0, and a number comes again
-- only after 255 exchanges.
seq_after_new : (n : ℕ) → seq_after (suc n) 0 ≡ n % 255 + 1
unfolding seq_after next_seq
seq_after_new zero = refl
seq_after_new (suc n) = ground (arith, seq_after_new n)

-- The specification: the first message that is for the slot and has the command waited for.
pub first_answer : Goznp → ℕ → ℕ → ℕ → List Message → Option Frame
first_answer z nwk cluster want [] = none
first_answer z nwk cluster want (m ∷ messages) =
    let rest = first_answer z nwk cluster want messages in
    if fits nwk cluster m
    then elim (answer_in z want m) [ some frame ↦ some frame | none ↦ rest ]
    else rest

abbrev pub answered : Reply Frame → Option Frame
answered (ok frame) = some frame
answered (err e) = none

-- All messages come in, and then the loop takes `n` times.
abbrev pub heard_then : List Message → List Moment → List Moment
heard_then [] later = later
heard_then (m ∷ messages) later = hears m ∷ heard_then messages later

abbrev pub take_times : ℕ → List Moment
take_times zero = []
take_times (suc n) = takes ∷ take_times n

module _ (z : Goznp) (nwk cluster want : ℕ) where
  abbrev fitting : List Message → List Message
  fitting [] = []
  fitting (m ∷ messages) =
      let rest = fitting messages in if fits nwk cluster m then m ∷ rest else rest

  abbrev first_in : List Message → Option Frame
  first_in [] = none
  first_in (m ∷ queue) =
      let rest = first_in queue in
      elim (answer_in z want m) [ some frame ↦ some frame | none ↦ rest ]

  first_in-fitting :
      (messages : List Message)
      → first_in (fitting messages) ≡ first_answer z nwk cluster want messages
  unfolding first_answer
  first_in-fitting [] = refl
  first_in-fitting (m ∷ messages) = ground (arith, first_in-fitting messages)

  fitting-le : (messages : List Message) → length (fitting messages) ≤ length messages
  fitting-le [] = omega arith
  fitting-le (m ∷ messages) = ground (arith, fitting-le messages)

  wait_hears :
      (messages : List Message) (later : List Moment) (queue : List Message) (skipped : List Str)
      → length queue + length messages ≤ 8
      → wait_answer z want (heard_then messages later) (slot_of nwk cluster queue) skipped
        ≡ wait_answer z want later (slot_of nwk cluster (queue ++ fitting messages)) skipped
  unfolding wait_answer
  wait_hears [] later queue skipped h =
      ap (λ q. wait_answer z want later (slot_of nwk cluster q) skipped) (sym (append-nil queue))
  wait_hears (m ∷ messages) later queue skipped h = elim (Bool-cases (fits nwk cluster m)) [
    | inl fit ↦
        let room : ltb (length queue) 8 ≡ true = ground arith in
        let now : note_af m (slot_of nwk cluster queue) ≡ slot_of nwk cluster (queue ++ m ∷ []) =
          unfold note_af in ground arith in
        let longer = length-append {0} queue (m ∷ []) in
        ap (λ s. wait_answer z want (heard_then messages later) s skipped) now
        ∙ wait_hears messages later (queue ++ m ∷ []) skipped (omega (arith, longer))
        ∙ ap (λ q. wait_answer z want later (slot_of nwk cluster q) skipped)
            (append_assoc queue (m ∷ []) (fitting messages) ∙ ap (λ l. queue ++ l) (rw fit refl))
    | inr unfit ↦
        let now : note_af m (slot_of nwk cluster queue) ≡ slot_of nwk cluster queue =
          unfold note_af in ground arith in
        ap (λ s. wait_answer z want (heard_then messages later) s skipped) now
        ∙ wait_hears messages later queue skipped (omega arith)
        ∙ ap (λ q. wait_answer z want later (slot_of nwk cluster (queue ++ q)) skipped)
            (rw unfit refl)
  ]

  wait_takes :
      (n : ℕ) (queue : List Message) (skipped : List Str)
      → length queue ≤ n
      → answered (wait_answer z want (take_times n) (slot_of nwk cluster queue) skipped)
        ≡ first_in queue
  unfolding wait_answer
  wait_takes zero [] skipped h = refl
  wait_takes zero (m ∷ queue) skipped h = absurd (omega arith)
  wait_takes (suc n) [] skipped h = wait_takes n [] skipped (omega arith)
  wait_takes (suc n) (m ∷ queue) skipped h =
      ground (arith, wait_takes n queue (skipped ++ skipped_text z m ∷ []))

-- Where at most 8 messages come in before the loop takes, and it takes as often before its timer
-- fires, the wait ends with the first message that is for the slot and has the command waited for,
-- and with an error exactly if there is none.
pub wait_answer-first_answer :
    (z : Goznp) (nwk cluster want n : ℕ) (messages : List Message)
    → length messages ≤ 8
    → length messages ≤ n
    → answered (wait_answer z want (heard_then messages (take_times n)) (open_slot nwk cluster) [])
      ≡ first_answer z nwk cluster want messages
wait_answer-first_answer z nwk cluster want n messages few enough =
    let queue = fitting z nwk cluster want messages in
    ap answered (wait_hears z nwk cluster want messages (take_times n) [] [] (omega arith))
    ∙ wait_takes z nwk cluster want n queue []
        (omega (arith, fitting-le z nwk cluster want messages))
    ∙ first_in-fitting z nwk cluster want messages
