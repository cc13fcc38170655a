-- ===== src/Bytereplacer/Runs.antt =====
-- Runs of bytereplacer/bytereplacer.go at concrete inputs.
use go.Common.{ℕ, ◌≡◌, refl, ◌∙◌, arith, true, List, [], ◌∷◌, some, All}
use go.Bytereplacer.Trie.{lookup}
use go.Bytereplacer.Trie.Entries.{IsBytes}
use go.Bytereplacer.Generic.{Pair, make_generic_replacer}
use go.Bytereplacer.Generic.First.Built.{lookup-first_match, index, size}
use go.Bytereplacer.Generic.First.{first_match, result}
use go.Bytereplacer.Generic.Index.{HasByteKeys}
use go.Bytereplacer.Replace.{replace}
use go.Bytereplacer.Replace.Matches.{replaced}
use go.Bytereplacer.Replace.InPlace.{replace-replaced}
use go.Bytereplacer.New.{new_replace, pair_up, new_replace-replaced}

-- "a" to "xyz", "ab" to nothing and "ba" to "c".
abbrev ab_pairs : List Pair
ab_pairs =
    record { old = 97 ∷ []; new = 120 ∷ 121 ∷ 122 ∷ [] }
    ∷ record { old = 97 ∷ 98 ∷ []; new = [] }
    ∷ record { old = 98 ∷ 97 ∷ []; new = 99 ∷ [] }
    ∷ []

abbrev ab_args : List (List ℕ)
ab_args = (97 ∷ []) ∷ (120 ∷ 121 ∷ 122 ∷ []) ∷ (97 ∷ 98 ∷ []) ∷ [] ∷ (98 ∷ 97 ∷ []) ∷ (99 ∷ []) ∷ []

-- "aba" in an array of three bytes, and of six.
abbrev aba : List ℕ
aba = 97 ∷ 98 ∷ 97 ∷ []

abbrev aba_room : List ℕ
aba_room = 97 ∷ 98 ∷ 97 ∷ 0 ∷ 0 ∷ 0 ∷ []

ab_keys : HasByteKeys ab_pairs
ab_keys =
    ((omega arith, tt), ((omega arith, (omega arith, tt)), ((omega arith, (omega arith, tt)), tt)))

aba-IsBytes : IsBytes aba
aba-IsBytes = (omega arith, (omega arith, (omega arith, tt)))

ab_args-IsBytes : All IsBytes ab_args
ab_args-IsBytes = (
  (omega arith, tt),
  (
    (omega arith, (omega arith, (omega arith, tt))),
    (
      (omega arith, (omega arith, tt)),
      (tt, ((omega arith, (omega arith, tt)), ((omega arith, tt), tt))),
    ),
  ),
)

replaced_run : replaced ab_pairs 0 aba ≡ 120 ∷ 121 ∷ 122 ∷ 99 ∷ []
unfolding replaced first_match
replaced_run = refl

described_run :
    some (replaced (pair_up ([] ∷ (45 ∷ []) ∷ [])) 0 (97 ∷ 98 ∷ []))
    ≡ some (45 ∷ 97 ∷ 45 ∷ 98 ∷ 45 ∷ [])
unfolding replaced first_match
described_run = refl

-- "-" before every byte and at the end.
empty_run : new_replace ([] ∷ (45 ∷ []) ∷ []) (97 ∷ 98 ∷ []) 2 ≡ some (45 ∷ 97 ∷ 45 ∷ 98 ∷ 45 ∷ [])
empty_run =
    new_replace-replaced ([] ∷ (45 ∷ []) ∷ []) (tt, ((omega arith, tt), tt)) (97 ∷ 98 ∷ []) 2
      (omega arith) (omega arith, (omega arith, tt))
    ∙ described_run

lookup-first_match_example :
    result
      (lookup (index ab_pairs) (size ab_pairs) ((make_generic_replacer ab_pairs).root) aba true)
    ≡ first_match ab_pairs aba true
lookup-first_match_example = lookup-first_match ab_pairs ab_keys aba aba-IsBytes true

replace-replaced_example :
    replace (make_generic_replacer ab_pairs) aba_room 3 ≡ some (replaced ab_pairs 0 aba)
replace-replaced_example = replace-replaced ab_pairs ab_keys aba_room 3 (omega arith) aba-IsBytes

new_replace-replaced_example : new_replace ab_args aba 3 ≡ some (replaced (pair_up ab_args) 0 aba)
new_replace-replaced_example =
    new_replace-replaced ab_args ab_args-IsBytes aba 3 (omega arith) aba-IsBytes
