-- ===== src/Ffs/Spans/Tests.antt =====
-- HW-FFS/ffs.py, the lines of the input file, the texts of dump and the spans: runs at concrete inputs.
use cs334_operating_systems.Prelude.{
  ℕ, ◌≤◌, ◌≡◌, refl, false, none, some, [], ◌∷◌, arith, get_elem?, Fault, ok, raise,
}
use cs334_operating_systems.Prelude.Int.{pos, ◌+ℤ◌, ◌-ℤ◌, ◌≤ℤ◌}
use cs334_operating_systems.Prelude.Text.{codes, text_eq, lookup}
use cs334_operating_systems.Ffs.State.{regular, directory, Ffs, find}
use cs334_operating_systems.Ffs.Lines.{file_line, read_line}
use cs334_operating_systems.Ffs.Dump.{string_from, list_to_string, do_numeric_header}
use cs334_operating_systems.Ffs.Spans.{data_address, Span, get_spans, do_all_spans}
use cs334_operating_systems.Ffs.Spans.Bounds.{IsAddress, get_spans_lem}

-- two groups of four blocks and three inodes: `/d`, a directory on block 1, and `/d/f` on the blocks 3 and
-- 4
abbrev small : Ffs
small = record {
  num_groups = 2;
  blocks_per_group = 4;
  inodes_per_group = 3;
  large_file_exception = 0;
  spread_inodes = false;
  contig_allocation_policy = 1;
  spread_data_blocks = false;
  allocate_faraway = 1;
  data_bitmap = (some 0 ∷ some 1 ∷ none ∷ some 2 ∷ []) ∷ (some 2 ∷ none ∷ none ∷ none ∷ []) ∷ [];
  inode_bitmap = (some 0 ∷ some 1 ∷ some 2 ∷ []) ∷ (none ∷ none ∷ none ∷ []) ∷ [];
  symbol_map = (0, codes "/") ∷ (1, codes "d") ∷ (2, codes "f") ∷ [];
  used_symbols = codes "/" ∷ codes "d" ∷ codes "f" ∷ [];
  available_symbols = codes "a" ∷ [];
  total_data_free = pos 4;
  total_inodes_free = pos 3;
  dir_data =
      (0, (codes ".", 0) ∷ (codes "..", 0) ∷ (codes "d", 1) ∷ [])
      ∷ (1, (codes ".", 0) ∷ (codes "..", 0) ∷ (codes "f", 2) ∷ [])
      ∷ [];
  inode_type = (0, directory) ∷ (1, directory) ∷ (2, regular) ∷ [];
  inode_blocks = (0, 0 ∷ []) ∷ (1, 1 ∷ []) ∷ (2, 3 ∷ 4 ∷ []) ∷ [];
  name_to_inode_map = (codes "/", 0) ∷ (codes "/d", 1) ∷ (codes "/d/f", 2) ∷ [];
}

-- from inode 2, at address 2, to block 4, at address 10
small_spans : do_all_spans small ≡ ok (pos 8, 1, pos 12, 2)
unfolding do_all_spans text_eq ◌+ℤ◌ ◌-ℤ◌
small_spans = refl

get_spans_lem_example :
    (r : Span) × (get_spans small (codes "/d/f") ≡ ok r)
    × IsAddress small (3 ∷ 4 ∷ []) (pos r.min_address)
    × IsAddress small (3 ∷ 4 ∷ []) r.max_address
    × ((k e : ℕ)
        → get_elem? (3 ∷ 4 ∷ []) k ≡ some e
        → (r.min_address ≤ data_address small e) × (pos (data_address small e) ≤ℤ r.max_address))
get_spans_lem_example =
    get_spans_lem small (codes "/d/f") 2 3 (4 ∷ []) (unfold lookup text_eq in refl)
      (unfold find in refl) (omega arith) (omega arith)

first_row : list_to_string small (some 0 ∷ some 1 ∷ none ∷ some 2 ∷ []) ≡ ok (codes "/d-f")
unfolding string_from
first_row = refl

tens : do_numeric_header 1 12 ≡ codes "0000000000 11"
unfolding do_numeric_header
tens = refl

file_read : read_line (codes "file /a  3\n") ≡ ok (some (file_line (codes "/a") (pos 3)))
unfolding read_line text_eq
file_read = refl

empty_read : read_line (codes " \n") ≡ ok none
unfolding read_line
empty_read = refl

no_size : read_line (codes "file /a\n") ≡ raise Fault.assertion
unfolding read_line text_eq
no_size = refl
