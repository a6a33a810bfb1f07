-- ===== src/Nacha/Shape.antt =====
-- The shape of a file that is generated.
use ach_orchestrator.Base.{
  ℕ, zero, suc, ◌≤◌, ◌<◌, none, some, List, [], ◌∷◌, ◌++◌, ◌≡◌, ◌⊎◌, inl, inr, refl, arith, length,
  map, ap, All,
}
use ach_orchestrator.Base.Text.{Text}
use ach_orchestrator.Base.Int.{ℤ}
use ach_orchestrator.Nacha.Parser.{nacha_record_len}
use ach_orchestrator.Nacha.Generator.{
  pad_right, joined, byte_at, file_header, batch_header, entry_detail, addenda, batch_control,
  file_control, written, file_with, generate_return_file,
}
use ach_orchestrator.Nacha.Padding.{length-pad_right}

-- Lines, each with its newline.
abbrev pub unlines : List Text → Text
unlines [] = []
unlines (l ∷ ls) = l ++ b'\n' ∷ unlines ls

-- Six lines of 94 bytes.
abbrev pub IsFile : Text → Type 0
IsFile content =
    (ls : List Text) × (length ls ≡ 6)
    × All (λ (l : Text). length l ≡ nacha_record_len) ls
    × (content ≡ unlines ls)

abbrev line_of : List Text → Text
line_of r = pad_right (joined r) nacha_record_len

written-unlines : (rs : List (List Text)) → written rs ≡ unlines (map line_of rs)
unfolding written
written-unlines [] = refl
written-unlines (r ∷ rs) = ap (λ t. line_of r ++ b'\n' ∷ t) (written-unlines rs)

lines_full :
    (rs : List (List Text)) → All (λ (l : Text). length l ≡ nacha_record_len) (map line_of rs)
lines_full [] = tt
lines_full (r ∷ rs) = (length-pad_right (joined r) 94, lines_full rs)

byte_at-cases :
    (n : ℕ) (s : Text)
    → ((length s ≤ n) × (byte_at n s ≡ none)) ⊎ ((n < length s) × (c : ℕ) × (byte_at n s ≡ some c))
byte_at-cases n [] = inl (omega arith, refl)
byte_at-cases zero (c ∷ s) = inr (omega arith, c, refl)
byte_at-cases (suc n) (c ∷ s) = elim (byte_at-cases n s) [
  | inl (short, e) ↦ inl (omega arith, e)
  | inr (long, d, e) ↦ inr (omega arith, d, e)
]

-- `GenerateReturnFile` panics exactly if the routing number has fewer than nine bytes. Otherwise,
-- whatever its other arguments are, the file has exactly six lines of 94 bytes.
pub generate_return_file_lem :
    (date time routing account : Text) (amount : ℤ) (trace r_code : Text)
    → let file = generate_return_file date time routing account amount trace r_code in
      ((length routing ≤ 8) × (file ≡ none))
      ⊎ ((8 < length routing) × (content : Text) × (file ≡ some content) × IsFile content)
unfolding generate_return_file file_with
generate_return_file_lem date time routing account amount trace r_code =
    elim (byte_at-cases 8 routing) [
      | inl (short, e) ↦ inl (short, rw e refl)
      | inr (long, c, e) ↦
          let rs =
            file_header date time routing account amount trace r_code
            ∷ batch_header date time routing account amount trace r_code
            ∷ entry_detail date time routing account amount trace r_code c
            ∷ addenda date time routing account amount trace r_code
            ∷ batch_control date time routing account amount trace r_code
            ∷ file_control date time routing account amount trace r_code
            ∷ [] in
          inr
            (long, written rs, rw e refl, (map line_of rs, refl, lines_full rs, written-unlines rs))
    ]
