-- ===== src/Wire/Numbers.antt =====
-- `pack` against `unpack` (recserve_pilot/transport.py).
use native.Mathlib.Nat.{pow-suc}
use recserve.Prelude.{
  ℕ, zero, suc, ◌/◌, ◌^◌, ◌<◌, ◌≡◌, refl, length, ap, arith, List, ◌++◌, take, drop, take-prefix,
  drop-prefix, sym, ◌∙◌,
}
use recserve.Wire.{pack, unpack, number_at}

pub length-pack : (width n : ℕ) → length (pack width n) ≡ width
unfolding pack
length-pack zero n = refl
length-pack (suc width) n = ap suc (length-pack width (n / 256))

-- Unpacking what was packed gives the number back, if it fits the width in bytes.
pub unpack-pack : (width n : ℕ) → n < 256 ^ width → unpack (pack width n) ≡ n
unfolding pack unpack
unpack-pack zero n h = omega arith
unpack-pack (suc width) n h =
    let below = rw pow-suc at h in omega (arith, unpack-pack width (n / 256) (omega (arith, below)))

-- A number is read back from the place where it was packed.
pub number_at-pack :
    (front back : List ℕ) (offset width n : ℕ)
    → length front ≡ offset
    → n < 256 ^ width
    → number_at offset width (front ++ (pack width n ++ back)) ≡ n
unfolding number_at
number_at-pack front back offset width n here h =
    let moved : drop offset (front ++ (pack width n ++ back)) ≡ pack width n ++ back =
      ap (λ k. drop k (front ++ (pack width n ++ back))) (sym here)
      ∙ drop-prefix front (pack width n ++ back) in
    let cut : take width (pack width n ++ back) ≡ pack width n =
      ap (λ k. take k (pack width n ++ back)) (sym (length-pack width n))
      ∙ take-prefix (pack width n) back in
    ap (λ l. unpack (take width l)) moved ∙ (ap unpack cut ∙ unpack-pack width n h)
