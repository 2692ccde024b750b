-- ===== src/App/Routes/Pages.antt =====
-- The pages of the catalog in recserve_app/api.py.
use mathlib.Core.List.{append-nil}
use recserve.Prelude.{
  ℕ, zero, suc, ◌+◌, ◌*◌, ◌≤◌, ◌≡◌, refl, sym, take_all, ◌∙◌, ap, none, some, List, [], ◌∷◌, ◌++◌,
  take, drop, length, length-drop, take-append-drop, ltb, arith, Bool-cases, inl, inr,
}
use recserve.App.Selection.{Movie}
use recserve.App.Routes.{page_at}

-- a client that asks for the next page as long as there is one
abbrev pub browse : ℕ → ℕ → List Movie → List Movie
browse zero cursor found = []
browse (suc fuel) cursor found =
    let page = page_at cursor found in
    page.items ++ elim page.next_cursor [ none ↦ [] | some next ↦ browse fuel next found ]

drop_all : (n : ℕ) (l : List Movie) → length l ≤ n → drop n l ≡ []
drop_all zero [] h = refl
drop_all zero (x ∷ l) h = absurd (omega (arith, h))
drop_all (suc n) [] h = refl
drop_all (suc n) (x ∷ l) h = drop_all n l (omega (arith, h))

drop-drop : (m n : ℕ) (l : List Movie) → drop n (drop m l) ≡ drop (m + n) l
drop-drop zero n l = (let this : n ≡ 0 + n = omega arith in ap (λ k. drop k l) this)
drop-drop (suc m) n [] = drop_all n [] (omega arith) ∙ sym (drop_all (suc m + n) [] (omega arith))
drop-drop (suc m) n (x ∷ l) =
    drop-drop m n l
    ∙ (let this : suc (m + n) ≡ suc m + n = omega arith in ap (λ k. drop k (x ∷ l)) this)

browse-drop :
    (fuel cursor : ℕ) (found : List Movie)
    → length found ≤ cursor + 20 * fuel
    → browse fuel cursor found ≡ drop cursor found
unfolding page_at
browse-drop zero cursor found h = sym (drop_all cursor found (omega (arith, h)))
browse-drop (suc fuel) cursor found h = elim (Bool-cases (ltb (cursor + 20) (length found))) [
  | inl more ↦ rw more (
      ap (λ l. take 20 (drop cursor found) ++ l)
        (browse-drop fuel (cursor + 20) found (omega (arith, h)) ∙ sym (drop-drop cursor 20 found))
      ∙ take-append-drop 20 (drop cursor found))
  | inr last ↦
      (let fits : length found ≤ cursor + 20 = ground (arith, last) in
        rw last (
          append-nil (take 20 (drop cursor found))
          ∙ take_all 20 (drop cursor found) (omega (arith, length-drop cursor found, fits))))
]

-- Following the cursors from the first page gives all that was found, each once and in order.
pub browse_all : (found : List Movie) → browse (suc (length found)) 0 found ≡ found
browse_all found = browse-drop (suc (length found)) 0 found (omega arith)
