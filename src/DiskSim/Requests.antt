-- ===== src/DiskSim/Requests.antt =====
-- HW-Disk/disk.py, class Disk: MakeRequests. What `random` draws for request `i` is `draw i`, and
-- `int(random.random() * n)` is `d % n` for a drawn number `d`.
use cs334_operating_systems.Prelude.{
  ℕ, zero, suc, ◌+◌, ◌%◌, List, [], ◌∷◌, if◌then◌else◌, Fault, Result, ok, raise, ◌>>=◌,
}
use cs334_operating_systems.Prelude.Int.{ℤ, pos, negsuc, pos_part, ◌+ℤ◌, ◌-ℤ◌, eq_ℤ, minus_one}
use cs334_operating_systems.Prelude.Text.{Text, codes, text_eq, split}
use cs334_operating_systems.Prelude.Parse.{int}

-- the three numbers of a description; any other count of them ends the program
unfoldable pub read_desc : List Text → Result (ℤ × ℤ × ℤ)
unfolding int
read_desc (a ∷ b ∷ c ∷ []) = do
  num_requests ← int a
  max_request ← int b
  min_request ← int c
  ok (num_requests, max_request, min_request)
read_desc _ = raise Fault.exit

-- `int(random.random() * n)`, which rounds towards 0
abbrev pub drawn : ℤ → ℕ → ℤ
drawn (pos zero) d = pos 0
drawn (pos (suc n)) d = pos (d % suc n)
drawn (negsuc n) d = pos 0 -ℤ pos (d % suc n)

unfoldable pub random_requests : (ℕ → ℕ) → ℤ → ℤ → ℕ → ℕ → List ℤ
unfolding ◌+ℤ◌ ◌-ℤ◌
random_requests draw max_request min_request i zero = []
random_requests draw max_request min_request i (suc n) =
    (drawn max_request (draw i) +ℤ min_request)
    ∷ random_requests draw max_request min_request (i + 1) n

-- what `MakeRequests` returns: numbers that it has drawn, or the texts of the option
pub data Requests : Type 0 where
  numbers : List ℤ → Requests
  texts : List Text → Requests

unfoldable pub make_requests : ℕ → (ℕ → ℕ) → Text → Text → Result Requests
unfolding read_desc random_requests split text_eq
make_requests max_block draw addr addr_desc =
    if text_eq addr (codes "-1")
    then (do
      (num_requests, max_request, min_request) ← read_desc (split b',' addr_desc)
      let max_request = if eq_ℤ max_request minus_one then pos max_block else max_request
      ok (numbers (random_requests draw max_request min_request 0 (pos_part num_requests))))
    else ok (texts (split b',' addr))

-- `int(self.requests[i])`, for the first requests
unfoldable pub block_numbers : List Text → Result (List ℤ)
unfolding int
block_numbers [] = ok []
block_numbers (t ∷ l) = do n ← int t; ns ← block_numbers l; ok (n ∷ ns)
