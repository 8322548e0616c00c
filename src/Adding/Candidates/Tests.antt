-- ===== src/Adding/Candidates/Tests.antt =====
-- Arguments of `add` with ASCII texts.
use js_ipfs.Prelude.{
  ℕ, ◌≡◌, refl, Option, none, some, List, [], ◌∷◌, codes, flatten, Result, ok, err, arith, inl,
}
use js_ipfs.Adding.Candidates.{
  Bytes, number, bytes, Content, iterable, whole_text, AddInput, nothing, content_of, an_object,
  File, Conversions, AddError, unexpected_input, normalise_candidate_single, multiple_items,
  strange, array,
}
use js_ipfs.Adding.Candidates.Contents.{Holds, OfObject, normalise_candidate_single-Holds}

abbrev js : Conversions
js = record { utf8 = λ s. s; to_text = λ c. codes "5"; coerced = λ c. 0 }

abbrev kept : Option ℕ → Option ℕ
kept m = m

abbrev chunks : Content
chunks = iterable (number 104 ∷ number 105 ∷ [])

normalise_candidate_single-Holds_example :
    Holds js kept kept
      (104 ∷ 105 ∷ [])
      (normalise_candidate_single js kept kept (content_of chunks))
    × ((parts : List Bytes) × OfObject js kept kept (some (codes "a")) (some 420) none chunks parts
        × (flatten parts ≡ 104 ∷ 105 ∷ []))
normalise_candidate_single-Holds_example =
    normalise_candidate_single-Holds js kept kept chunks (some (codes "a")) (some 420) none
      (inl (omega arith, (omega arith, tt)))

abbrev outcome : AddInput ℕ ℕ → Result AddError (File ℕ ℕ)
outcome input = normalise_candidate_single js kept kept input

-- An object whose content is the empty text has no content: it is what a directory is given as.
empty_content :
    outcome (an_object (some (codes "a.txt")) none none (some (whole_text [])))
    ≡ ok (record { path = some (codes "a.txt"); mode = none; mtime = none; content = none })
unfolding normalise_candidate_single
empty_content = refl

empty_text :
    outcome (content_of (whole_text []))
    ≡ ok (record { path = some []; mode = none; mtime = none; content = some ([] ∷ []) })
unfolding normalise_candidate_single
empty_text = refl

no_input : outcome nothing ≡ err unexpected_input
unfolding normalise_candidate_single
no_input = refl

several : outcome (content_of (iterable (strange ∷ []))) ≡ err multiple_items
unfolding normalise_candidate_single
several = refl

-- A number behind a buffer is taken for the text of its digits.
mixed :
    outcome (content_of (iterable (bytes (1 ∷ []) ∷ number 5 ∷ [])))
    ≡ ok (record {
      path = some [];
      mode = none;
      mtime = none;
      content = some ((1 ∷ []) ∷ codes "5" ∷ []);
    })
unfolding normalise_candidate_single
mixed = refl

-- An array behind a buffer is a chunk of bytes, and one in front is refused.
arrays :
    (outcome (content_of (iterable (bytes (1 ∷ []) ∷ array (2 ∷ 259 ∷ []) ∷ [])))
      ≡ ok (record {
        path = some [];
        mode = none;
        mtime = none;
        content = some ((1 ∷ []) ∷ (2 ∷ 3 ∷ []) ∷ []);
      }))
    × (outcome (content_of (iterable (array (2 ∷ []) ∷ []))) ≡ err multiple_items)
unfolding normalise_candidate_single
arrays = (refl, refl)
