-- ===== src/Lab1/Tests.antt =====
-- Lab1/my_cat.c on a file that is read in parts, and on outputs that take all or a part.
use petulant_wookie.Base.{
  ℕ, ◌/◌, ◌≡◌, refl, List, [], ◌∷◌, ◌++◌, Option, none, some, length, take, true, arith,
}
use petulant_wookie.Posix.{ReadResult, got, read_eintr, wrote, File, success}
use petulant_wookie.Lab1.MyCat.{main}
use petulant_wookie.Lab1.MyCat.Complete.{TakesAll, Reads, ended, retried, chunk, main_lem}
use petulant_wookie.Lab1.MyCat.Stuck.{NeverFails, main_stuck}

-- A file whose state is what each call of `read` still returns.
abbrev replies : List ReadResult → Option (ReadResult × List ReadResult)
replies [] = some (got [], [])
replies (r ∷ rs) = some (r, rs)

abbrev script : File (List ReadResult)
script = record { read = λ n rs. replies rs; write = λ bs rs. none }

-- Three bytes, an interrupted call, two bytes.
abbrev input : List ReadResult
input = got (1 ∷ 2 ∷ 3 ∷ []) ∷ read_eintr ∷ got (4 ∷ 5 ∷ []) ∷ []

-- The bytes that were written so far.
abbrev sink : File (List ℕ)
sink = record { read = λ n out. none; write = λ bs out. some (wrote (length bs), out ++ bs) }

sink-TakesAll : TakesAll sink (λ out. out)
sink-TakesAll bs out = (out ++ bs, refl, refl)

input-Reads : Reads script 4 input (1 ∷ 2 ∷ 3 ∷ 4 ∷ 5 ∷ [])
input-Reads =
    chunk 1 (2 ∷ 3 ∷ []) refl (retried refl (chunk 4 (5 ∷ []) refl (ended refl) refl)) refl

main_lem_example :
    (s' : List ReadResult) × (t' : List ℕ) × (main script sink true true 4 1 input []
      ≡ some (success, s', t'))
    × (t' ≡ 1 ∷ 2 ∷ 3 ∷ 4 ∷ 5 ∷ [])
main_lem_example =
    main_lem script sink (λ out. out) sink-TakesAll 4 1 4 input [] (1 ∷ 2 ∷ 3 ∷ 4 ∷ 5 ∷ [])
      input-Reads (omega arith) (omega arith)

-- An output that takes half of what it is given.
abbrev half_sink : File (List ℕ)
half_sink = record {
  read = λ n out. none;
  write = λ bs out. some (wrote (length bs / 2), out ++ take (length bs / 2) bs);
}

half_sink-NeverFails : NeverFails half_sink
half_sink-NeverFails bs out = omega arith

main_stuck_example : main script half_sink true true 1000 1000 input [] ≡ none
main_stuck_example =
    main_stuck script half_sink 1000 1000 1 input (read_eintr ∷ got (4 ∷ 5 ∷ []) ∷ []) [] (1 ∷ []) 1
      (2 ∷ 3 ∷ []) half_sink-NeverFails refl refl (omega arith) (omega arith) (omega arith)

main_runs : main script sink true true 4 1 input [] ≡ some (success, [], 1 ∷ 2 ∷ 3 ∷ 4 ∷ 5 ∷ [])
unfolding main
main_runs = refl
