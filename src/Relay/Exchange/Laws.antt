-- ===== src/Relay/Exchange/Laws.antt =====
-- Whose answer an exchange takes, when it finds one, and its sequence numbers.
use zigbeemq.Prelude.{
  ltb, Bool-cases, Option-cases, length, All, All-append, Str, ℕ, ◌≡◌, refl, ap, ◌∙◌, ◌⊎◌, inl, inr,
  true, ◌&&◌, some, List, [], ◌∷◌, ◌++◌, arith,
}
use zigbeemq.Errors.{ok}
use zigbeemq.Zigbee.{Frame, Message, Outgoing, Goznp}
use zigbeemq.Radio.{Moment, hears, takes, gives_up, Link}
use zigbeemq.Hub.{Hub}
use zigbeemq.Relay.Call.{◌>>=◌}
use zigbeemq.Relay.Exchange.{
  Slot, open_slot, fits, note_af, next_seq, answer_in, skipped_text, wait_answer, relay_exchange,
}

-- The message comes in at one of the moments.
abbrev pub Heard : Message → List Moment → Type 0
Heard m [] = ⊥
Heard m (hears x ∷ moments) = (x ≡ m) ⊎ Heard m moments
Heard m (_ ∷ moments) = Heard m moments

abbrev Queued : Message → List Message → Type 0
Queued m [] = ⊥
Queued m (x ∷ queue) = (x ≡ m) ⊎ Queued m queue

Queued-append :
    (m : Message) (queue : List Message) (x : Message)
    → Queued m (queue ++ x ∷ [])
    → Queued m queue ⊎ (x ≡ m)
Queued-append m [] x (inl e) = inr e
Queued-append m [] x (inr h) = elim h [ ]
Queued-append m (y ∷ queue) x (inl e) = inl (inl e)
Queued-append m (y ∷ queue) x (inr h) = elim (Queued-append m queue x h) [
  | inl q ↦ inl (inr q)
  | inr e ↦ inr e
]

-- A message that answers a request to the device at `nwk`, on the cluster.
pub record IsAnswer (z : Goznp) (nwk cluster want : ℕ) (frame : Frame) (m : Message) : Type 0 where
  pub source : m.src_addr ≡ nwk
  pub topic : m.cluster_id ≡ cluster
  pub parsed : z.parse_frame m.body ≡ some frame
  pub command : frame.command_id ≡ want

abbrev pub slot_of : ℕ → ℕ → List Message → Slot
slot_of nwk cluster queue = record { nwk = nwk; cluster = cluster; queue = queue }

-- Every queued message is one that the slot is for.
abbrev AllFit : ℕ → ℕ → List Message → Type 0
AllFit nwk cluster queue = All (λ m. fits nwk cluster m ≡ true) queue

module _ (nwk cluster : ℕ) where
  note_af-AllFit :
      (m : Message) (queue : List Message)
      → AllFit nwk cluster queue
      → AllFit nwk cluster (note_af m (slot_of nwk cluster queue)).queue
  unfolding note_af
  note_af-AllFit m queue h = elim (Bool-cases (fits nwk cluster m && ltb (length queue) 8)) [
    | inl e ↦ rw e (All-append (λ x. fits nwk cluster x ≡ true) queue (m ∷ []) h (ground arith, tt))
    | inr e ↦ rw e h
  ]

  Queued-note_af :
      (x m : Message) (queue : List Message)
      → Queued x (note_af m (slot_of nwk cluster queue)).queue
      → Queued x queue ⊎ (m ≡ x)
  unfolding note_af
  Queued-note_af x m queue q = elim (Bool-cases (fits nwk cluster m && ltb (length queue) 8)) [
    | inl e ↦ Queued-append x queue m (rw e at q)
    | inr e ↦ inl (rw e at q)
  ]

  module _ (z : Goznp) (want : ℕ) (frame : Frame) where
    answer_in-IsAnswer :
        (m : Message)
        → fits nwk cluster m ≡ true
        → answer_in z want m ≡ some frame
        → IsAnswer z nwk cluster want frame m
    unfolding answer_in
    answer_in-IsAnswer m f e = elim (Option-cases (z.parse_frame m.body)) [
      | inl bad ↦ absurd (ground arith)
      | inr (frame', parsed') ↦ record {
        source = ground arith;
        topic = ground arith;
        parsed = ground arith;
        command = ground arith;
      }
    ]

    -- The loop's answer is that of a message which was queued or comes in.
    wait_answer-IsAnswer :
        (moments : List Moment) (queue : List Message) (skipped : List Str)
        → AllFit nwk cluster queue
        → wait_answer z want moments (slot_of nwk cluster queue) skipped ≡ ok frame
        → (m : Message) × (Queued m queue ⊎ Heard m moments) × IsAnswer z nwk cluster want frame m
    unfolding wait_answer
    wait_answer-IsAnswer [] queue skipped h e = absurd (ground arith)
    wait_answer-IsAnswer (gives_up x ∷ moments) queue skipped h e = absurd (ground arith)
    wait_answer-IsAnswer (hears x ∷ moments) queue skipped h e =
        let s = note_af x (slot_of nwk cluster queue) in
        let (m, from, is) =
          wait_answer-IsAnswer moments s.queue skipped (note_af-AllFit x queue h)
            (unfold note_af in e) in
        (
          m,
          elim from [
            | inr later ↦ inr (inr later)
            | inl queued ↦ elim (Queued-note_af m x queue queued) [
              | inl before ↦ inl before
              | inr now ↦ inr (inl now)
            ]
          ],
          is,
        )
    wait_answer-IsAnswer (takes ∷ moments) [] skipped h e =
        wait_answer-IsAnswer moments [] skipped h e
    wait_answer-IsAnswer (takes ∷ moments) (x ∷ queue) skipped (f, h) e =
        elim (Option-cases (answer_in z want x)) [
          | inr (frame', found) ↦
              (x, inl (inl refl), answer_in-IsAnswer x f (found ∙ ap some (ground arith)))
          | inl passed ↦
              let (m, from, is) =
                wait_answer-IsAnswer moments queue (skipped ++ skipped_text z x ∷ []) h
                  (ground arith) in
              (m, elim from [ inl queued ↦ inl (inr queued) | inr later ↦ inr later ], is)
        ]

Heard-only : (m : Message) (moments : List Moment) → Queued m [] ⊎ Heard m moments → Heard m moments
Heard-only m moments (inl queued) = elim queued [ ]
Heard-only m moments (inr heard) = heard

-- An exchange that gives a frame has used the next sequence number and changed nothing else of the hub,
-- and the frame is that of a message which came in during the exchange from the device that was
-- asked, on the cluster that was asked, with the command that is waited for.
pub relay_exchange-IsAnswer :
    {World : Type 0} (z : Goznp) (link : Link World) (nwk ep cluster want : ℕ) (out : Outgoing)
    (h : Hub) (w : World) (frame : Frame)
    → (relay_exchange z link nwk ep cluster out want h w).2 ≡ ok frame
    → ((relay_exchange z link nwk ep cluster out want h w).0
        ≡ record h { zcl_seq = next_seq h.zcl_seq })
      × (let seq = next_seq h.zcl_seq in
          let sent = link.data_request w nwk ep cluster seq out in
          let during = link.moments (link.data_confirm sent.0 seq).0 in
          (m : Message) × Heard m during.1 × IsAnswer z nwk cluster want frame m)
unfolding relay_exchange ◌>>=◌
relay_exchange-IsAnswer z link nwk ep cluster want out h w frame e =
    let seq = next_seq h.zcl_seq in
    let sent = link.data_request w nwk ep cluster seq out in
    let w' = (link.data_confirm sent.0 seq).0 in
    let answer = wait_answer z want (link.moments w').1 (open_slot nwk cluster) [] in
    let got : answer ≡ ok frame = ground arith in
    let (m, from, is) =
      wait_answer-IsAnswer nwk cluster z want frame (link.moments w').1 [] [] tt got in
    (ground arith, (m, Heard-only m (link.moments w').1 from, is))
