-- ===== src/Tests/Clients.antt =====
-- The theorems about the wire, the RSV1 client and the selection at concrete inputs.
use recserve.Prelude.{
  ℕ, ◌≤◌, ◌≡◌, refl, String, true, some, List, [], ◌∷◌, All, length, Distinct, same,
}
use recserve.Exec.{Result, ok}
use recserve.Wire.{unpack, Arrival, bytes, exact, exact_from, number_at}
use recserve.Pilot.Transport.{FloatBits, add_item, read_items, read_body, retrieve}
use recserve.Pilot.Transport.Accepted.{IsValid, retrieve-IsValid}
use recserve.App.Selection.{Movie, als, Catalog, Trouble, Selection, movie_of, select_items}
use recserve.App.Selection.Replenished.{IsSelection, select_items-IsSelection}

abbrev raw : FloatBits ℕ
raw = record { of_bits = λ n. n; is_finite = λ n. true }

-- the reply of one item, the row 1 with the score 7, in two packets
abbrev reply : List Arrival
reply =
    bytes (0x31 ∷ 0x56 ∷ 0x53 ∷ 0x52 ∷ 24 ∷ 0 ∷ 0 ∷ 0 ∷ 1 ∷ 0 ∷ [])
    ∷ bytes
        (0 ∷ 0 ∷ 0 ∷ 0 ∷ 0 ∷ 0 ∷ 0 ∷ 0 ∷ 0 ∷ 0 ∷ 1 ∷ 0 ∷ 0 ∷ 0 ∷ 1 ∷ 0 ∷ 0 ∷ 0 ∷ 7 ∷ 0 ∷ 0 ∷ 0 ∷ [])
    ∷ []

abbrev second : List (String × ℕ)
second = ("b", 7) ∷ []

read : retrieve raw ("a" ∷ "b" ∷ []) 2 reply ≡ ok second
unfolding same retrieve read_body read_items add_item exact exact_from number_at unpack
read = refl

retrieve-IsValid_example :
    All (IsValid raw ("a" ∷ "b" ∷ [])) second × Distinct second × (length second ≤ 2)
retrieve-IsValid_example = retrieve-IsValid raw ("a" ∷ "b" ∷ []) 2 reply second read

abbrev first_film : Movie
first_film = record { id = 10; title = "a"; available = true }

abbrev second_film : Movie
second_film = record { id = 20; title = "b"; available = true }

abbrev cinema : Catalog
cinema = record { movies = first_film ∷ second_film ∷ []; popular = 20 ∷ 10 ∷ [] }

cinema_known : All (λ i. (m : Movie) × (movie_of i cinema.movies ≡ some m)) cinema.popular
unfolding movie_of
cinema_known = ((second_film, refl), ((first_film, refl), tt))

abbrev rows : ℕ → Result Trouble (List (ℕ × ℕ))
rows count = ok ((0, 9) ∷ (1, 8) ∷ [])

select_items-IsSelection_example :
    (r : Selection) × (select_items cinema (some rows) (10 ∷ []) 2 als ≡ ok r)
    × IsSelection cinema (10 ∷ []) 2 r
select_items-IsSelection_example =
    select_items-IsSelection cinema (10 ∷ []) (some rows) 2 als cinema_known
