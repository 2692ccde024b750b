-- ===== src/Wire/Receiving.antt =====
-- A read of a socket against the bytes that arrive (recserve_pilot/transport.py).
use mathlib.Core.List.{append_assoc}
use recserve.Prelude.{
  ℕ, ◌+◌, ◌-◌, ◌≡◌, ◌≤◌, ◌<◌, refl, ap, sym, ◌∙◌, length-append, length-take, length-drop,
  take-append-drop, take-prefix, drop-prefix, List, [], ◌∷◌, ◌++◌, length, take, drop, leb, false,
  arith, Bool-cases, inl, inr,
}
use recserve.Exec.{ok}
use recserve.Wire.{Arrival, bytes, expired, exact_from, exact}

-- the bytes that arrive before the time ends or the peer closes
abbrev pub stream : List Arrival → List ℕ
stream [] = []
stream (expired ∷ later) = []
stream (bytes [] ∷ later) = []
stream (bytes (b ∷ bs) ∷ later) = (b ∷ bs) ++ stream later

stream-bytes :
    (part : List ℕ) (later : List Arrival)
    → 0 < length part
    → stream (bytes part ∷ later) ≡ part ++ stream later
stream-bytes [] later h = elim h [ ]
stream-bytes (b ∷ bs) later h = refl

-- what is read, and what is left to read
abbrev Reads : ℕ → List ℕ → List Arrival → Type 0
Reads n output arrivals =
    (o : List ℕ) × (rest : List Arrival) × (exact_from n output arrivals ≡ ok (o, rest))
    × (length o ≡ n)
    × (o ++ stream rest ≡ output ++ stream arrivals)

reads_cut :
    (n : ℕ) (output part : List ℕ) (later : List Arrival)
    → length output ≤ n
    → leb (length part) (n - length output) ≡ false
    → let room = n - length output in
      (length (output ++ take room part) ≡ n)
      × ((output ++ take room part) ++ stream (bytes (drop room part) ∷ later)
          ≡ output ++ (part ++ stream later))
reads_cut n output part later h over =
    let room = n - length output in
    let bound : room < length part = ground arith in
    (
      omega (
        arith,
        length-append output (take room part),
        length-take room part (omega (arith, bound)),
      ),
      rw (stream-bytes (drop room part) later (omega (arith, bound, length-drop room part))) (
          append_assoc output (take room part) (drop room part ++ stream later)
          ∙ ap (λ l. output ++ l)
              (sym (append_assoc (take room part) (drop room part) (stream later))
                ∙ ap (λ l. l ++ stream later) (take-append-drop room part))),
    )

exact_from-enough :
    (n : ℕ) (output : List ℕ) (arrivals : List Arrival)
    → length output ≤ n
    → n ≤ length output + length (stream arrivals)
    → Reads n output arrivals
unfolding exact_from
exact_from-enough n output [] h e = (output, [], ground arith, omega arith, refl)
exact_from-enough n output (expired ∷ later) h e =
    (output, expired ∷ later, ground arith, omega arith, refl)
exact_from-enough n output (bytes [] ∷ later) h e =
    (output, bytes [] ∷ later, ground arith, omega arith, refl)
exact_from-enough n output (bytes (b ∷ bs) ∷ later) h e =
    elim (Bool-cases (leb n (length output))) [
      | inl full ↦ (output, bytes (b ∷ bs) ∷ later, rw full refl, ground arith, refl)
      | inr short ↦ elim (Bool-cases (leb (length (b ∷ bs)) (n - length output))) [
        | inl fits ↦
            let (o, rest, r, l, s) =
              exact_from-enough n (output ++ b ∷ bs) later
                (ground (arith, length-append output (b ∷ bs)))
                (omega (
                  arith,
                  length-append output (b ∷ bs),
                  length-append (b ∷ bs) (stream later),
                  e,
                )) in
            (o, rest, rw (short, fits) r, l, s ∙ append_assoc output (b ∷ bs) (stream later))
        | inr over ↦
            let (l, s) = reads_cut n output (b ∷ bs) later h over in
            (
              output ++ take (n - length output) (b ∷ bs),
              bytes (drop (n - length output) (b ∷ bs)) ∷ later,
              rw (short, over) refl,
              l,
              s,
            )
      ]
    ]

-- If enough bytes arrive in time, the read returns exactly the first `n` of them, however they
-- were cut into packets, and leaves the others for the next read.
pub exact-reads :
    (n : ℕ) (arrivals : List Arrival)
    → n ≤ length (stream arrivals)
    → (o : List ℕ) × (rest : List Arrival) × (exact n arrivals ≡ ok (o, rest))
      × (length o ≡ n)
      × (o ++ stream rest ≡ stream arrivals)
unfolding exact
exact-reads n arrivals h = exact_from-enough n [] arrivals (omega arith) (omega (arith, h))

-- The first `n` bytes are what a prefix of that length is, and what follows stays.
pub exact-prefix :
    (n : ℕ) (arrivals : List Arrival) (front back : List ℕ)
    → stream arrivals ≡ front ++ back
    → length front ≡ n
    → (rest : List Arrival) × (exact n arrivals ≡ ok (front, rest)) × (stream rest ≡ back)
exact-prefix n arrivals front back s e =
    let (o, rest, read, size, split) =
      exact-reads n arrivals (omega (arith, ap length s, length-append front back, e)) in
    let both : o ++ stream rest ≡ front ++ back = split ∙ s in
    let fronts : o ≡ front =
      sym (take-prefix o (stream rest))
      ∙ (ap (λ k. take k (o ++ stream rest)) (size ∙ sym e)
          ∙ (ap (take (length front)) both ∙ take-prefix front back)) in
    let backs : stream rest ≡ back =
      sym (drop-prefix o (stream rest))
      ∙ (ap (λ k. drop k (o ++ stream rest)) (size ∙ sym e)
          ∙ (ap (drop (length front)) both ∙ drop-prefix front back)) in
    (rest, read ∙ ap (λ l. ok (l, rest)) fronts, backs)
