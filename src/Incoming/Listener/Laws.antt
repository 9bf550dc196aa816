-- ===== src/Incoming/Listener/Laws.antt =====
-- What the listener of frames (internal/hub/incoming.go) keeps and what it drops.
use mathlib.Core.List.{append_assoc}
use zigbeemq.Prelude.{
  ltb, if◌then◌else◌, Bool-cases, Option-cases, length, take, length-append, ℕ, zero, suc, ◌≤◌, ◌≡◌,
  refl, sym, ap, ◌∙◌, ◌⊎◌, inl, inr, none, some, List, [], ◌∷◌, ◌++◌, arith,
}
use zigbeemq.Zigbee.{Message}
use zigbeemq.Incoming.Listener.{WireFrame, Wire, Listener, heard, on_frame, on_frames}

-- The messages of frames, in the order in which they come.
pub all_heard : Wire → List WireFrame → List Message
all_heard c [] = []
all_heard c (frame ∷ frames) =
    let rest = all_heard c frames in elim (heard c frame) [ none ↦ rest | some m ↦ m ∷ rest ]

take_full : {A : Type 0} (n : ℕ) (xs ys : List A) → n ≤ length xs → take n (xs ++ ys) ≡ take n xs
take_full zero xs ys h = refl
take_full (suc n) [] ys h = ground arith
take_full (suc n) (x ∷ xs) ys h = ap (λ l. x ∷ l) (take_full n xs ys (omega arith))

take_all : {A : Type 0} (n : ℕ) (xs : List A) → length xs ≤ n → take n (xs ++ []) ≡ xs
take_all zero [] h = refl
take_all zero (x ∷ xs) h = ground arith
take_all (suc n) [] h = refl
take_all (suc n) (x ∷ xs) h = ap (λ l. x ∷ l) (take_all n xs (omega arith))

-- A queue of capacity `n` after one more element is sent.
push : {A : Type 0} → ℕ → A → List A → List A
push n y xs = if ltb (length xs) n then xs ++ y ∷ [] else xs

push_fits : {A : Type 0} (n : ℕ) (y : A) (xs : List A) → length xs ≤ n → length (push n y xs) ≤ n
unfolding push
push_fits n y xs h = ground (arith, length-append xs (y ∷ []))

take-push :
    {A : Type 0} (n : ℕ) (y : A) (xs ys : List A)
    → take n (push n y xs ++ ys) ≡ take n (xs ++ y ∷ ys)
unfolding push
take-push n y xs ys = elim (Bool-cases (ltb (length xs) n)) [
  | inl room ↦ rw room (ap (take n) (append_assoc xs (y ∷ []) ys))
  | inr full ↦
      let long : n ≤ length xs = ground arith in
      rw full (take_full n xs ys long ∙ sym (take_full n xs (y ∷ ys) long))
]

-- What one frame adds to the messages and to the queue.
on_frame_cases :
    (c : Wire) (frame : WireFrame) (frames : List WireFrame) (s : Listener)
    → ((on_frame c frame s ≡ s) × (all_heard c (frame ∷ frames) ≡ all_heard c frames))
      ⊎ ((m : Message) × ((on_frame c frame s).queue ≡ push 128 m s.queue)
          × (all_heard c (frame ∷ frames) ≡ m ∷ all_heard c frames))
unfolding on_frame all_heard push
on_frame_cases c frame frames s = elim (Option-cases (heard c frame)) [
  | inl silent ↦ inl (ground arith, ground arith)
  | inr (m, said) ↦ inr (m, ground arith, ground arith)
]

-- While nothing is taken from the hub's queue of at most 128 messages, it holds after any frames the
-- first 128 of the messages that were there and the messages of the frames, in the order in which they
-- came: whatever the slot does, a message is dropped only if 128 others wait.
pub on_frames-queue :
    (c : Wire) (frames : List WireFrame) (s : Listener)
    → length s.queue ≤ 128
    → (on_frames c frames s).queue ≡ take 128 (s.queue ++ all_heard c frames)
unfolding on_frames all_heard
on_frames-queue c [] s h = sym (take_all 128 s.queue h)
on_frames-queue c (frame ∷ frames) s h = elim (on_frame_cases c frame frames s) [
  | inl (same, nothing) ↦
      ap (λ t. (on_frames c frames t).queue) same
      ∙ (on_frames-queue c frames s h ∙ ap (λ l. take 128 (s.queue ++ l)) (sym nothing))
  | inr (m, one, more) ↦
      let fits : length (on_frame c frame s).queue ≤ 128 = rw one (push_fits 128 m s.queue h) in
      on_frames-queue c frames (on_frame c frame s) fits
      ∙ (ap (λ q. take 128 (q ++ all_heard c frames)) one
          ∙ (take-push 128 m s.queue (all_heard c frames)
              ∙ ap (λ l. take 128 (s.queue ++ l)) (sym more)))
]
