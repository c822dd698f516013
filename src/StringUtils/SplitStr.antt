-- ===== src/StringUtils/SplitStr.antt =====
-- The loop of `ss_split_str` ends, and computes the pieces that delimiters end.
use ehttp.Base.{
  ℕ, zero, suc, ◌<◌, ◌≡◌, refl, sym, ap, ◌∙◌, false, inl, inr, List, [], ◌∷◌, ◌++◌, append-nil,
  append_assoc, arith, pos, Bool-cases, Bytes, length, All,
}
use ehttp.Std.Stream.{
  open_on, ended, getline, after, has_byte, length-after_lt, getline_found, getline_last,
}
use ehttp.Std.Split.{pieces, pieces_found, pieces_last, join, Free, NonEmpty, last_or, pieces-join}
use ehttp.StringUtils.{split_loop, ss_split_str}

split_loop_end :
    (fuel d : ℕ) (tokens : List Bytes) → split_loop fuel d (ended false) tokens ≡ tokens
unfolding split_loop getline
split_loop_end zero d tokens = refl
split_loop_end (suc fuel) d tokens = refl

split_loop_lem :
    (fuel d : ℕ) (s : Bytes) (tokens : List Bytes)
    → length s < fuel
    → split_loop fuel d (open_on s) tokens ≡ tokens ++ pieces d s
unfolding split_loop
split_loop_lem zero d s tokens h = absurd (omega arith)
split_loop_lem (suc fuel) d [] tokens h = unfold getline pieces in sym (append-nil tokens)
split_loop_lem (suc fuel) d (c ∷ s) tokens h = elim (Bool-cases (has_byte d (c ∷ s))) [
  | inl e ↦
      rw (getline_found d (c ∷ s) e, pieces_found d (c ∷ s) e)
        (split_loop_lem fuel d (after d (c ∷ s)) _ (omega (arith, length-after_lt d (c ∷ s) e))
          ∙ append_assoc tokens _ _)
  | inr e ↦ rw (getline_last d (c ∷ s) e, pieces_last d c s e) (split_loop_end fuel d _)
]

-- On every input the call returns 0 and adds, behind the tokens that the caller has, exactly the
-- pieces of the input that a delimiter or the end closes, an empty last piece left out.
pub ss_split_str-pieces :
    (input : Bytes) (d : ℕ) (tokens : List Bytes)
    → ss_split_str input d tokens ≡ (pos 0, tokens ++ pieces d input)
unfolding ss_split_str
ss_split_str-pieces [] d tokens = unfold pieces in rw append-nil
ss_split_str-pieces (c ∷ s) d tokens =
    ap (λ t. (pos 0, t)) (split_loop_lem (suc (length (c ∷ s))) d (c ∷ s) tokens (omega arith))

-- Splitting a text that was joined from pieces free of the delimiter gives these pieces back,
-- where the last piece is not empty.
pub ss_split_str-join :
    (d : ℕ) (p : Bytes) (ps : List Bytes)
    → All (Free d) (p ∷ ps)
    → NonEmpty (last_or p ps)
    → ss_split_str (join d (p ∷ ps)) d [] ≡ (pos 0, p ∷ ps)
ss_split_str-join d p ps free last =
    ss_split_str-pieces (join d (p ∷ ps)) d [] ∙ ap (λ t. (pos 0, t)) (pieces-join d p ps free last)
