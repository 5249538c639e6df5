-- ===== src/Console/Paths.antt =====
-- What is read back of a path that was typed, dropped with escaped spaces, or quoted.
use local_chat_xxx.Common.{
  Bool-cases, [], ap, arith, false, if-cases, if◌then◌else◌, inl, inr, refl, true, ℕ, ◌++◌, ◌==◌,
  ◌∙◌, ◌∷◌, ◌≡◌, ◌≢◌, ◌⊎◌,
}
use local_chat_xxx.Console.Lines.{
  back, is_space, path_argument, pop_back, push_unless_blank, strip_quotes, trim_back, trim_front,
  unescape,
}
use local_chat_xxx.Common.Bytes.{Avoids, Bytes}

-- How terminals escape a path.
unfoldable pub escape : Bytes → Bytes
escape [] = []
escape (b ∷ bs) = if b == b' ' then 92 ∷ (b ∷ escape bs) else b ∷ escape bs

abbrev pub Blank : Bytes → Type 0
Blank [] = Unit
Blank (b ∷ bs) = (is_space b ≡ true) × Blank bs

-- The last byte is no blank.
abbrev pub SolidBack : ℕ → Bytes → Type 0
SolidBack b [] = is_space b ≡ false
SolidBack b (c ∷ cs) = SolidBack c cs

-- The path has no backslash, its first byte is neither a blank nor a quote, its last is no blank.
pub record IsPlain (b : ℕ) (bs : Bytes) : Type 0 where
  pub no_backslash : Avoids 92 (b ∷ bs)
  pub front : is_space b ≡ false
  pub no_single : (b == 39) ≡ false
  pub no_double : (b == 34) ≡ false
  pub solid : SolidBack b bs

-- The ways in which the path may stand in the line.
pub data Written (p : Bytes) : Bytes → Type 0 where
  typed : Written p p
  dropped : Written p (escape p)
  single_quoted : Written p (39 ∷ (p ++ (39 ∷ [])))
  double_quoted : Written p (34 ∷ (p ++ (34 ∷ [])))

trim_front-Blank : (pre w : Bytes) → Blank pre → trim_front (pre ++ w) ≡ trim_front w
unfolding trim_front
trim_front-Blank [] w h = refl
trim_front-Blank (b ∷ bs) w h = rw (h.0) (trim_front-Blank bs w h.1)

trim_back-Blank : (post : Bytes) → Blank post → trim_back post ≡ []
unfolding trim_back push_unless_blank
trim_back-Blank [] h = refl
trim_back-Blank (b ∷ bs) h = rw (trim_back-Blank bs h.1) (rw (h.0) refl)

trim_back-solid :
    (b : ℕ) (bs post : Bytes) → SolidBack b bs → Blank post → trim_back (b ∷ (bs ++ post)) ≡ b ∷ bs
unfolding trim_back push_unless_blank
trim_back-solid b [] post s h = rw (trim_back-Blank post h) (rw s refl)
trim_back-solid b (c ∷ cs) post s h = rw (trim_back-solid c cs post s h) refl

trimmed :
    (b : ℕ) (bs pre post : Bytes)
    → is_space b ≡ false
    → SolidBack b bs
    → Blank pre
    → Blank post
    → trim_back (trim_front (pre ++ (b ∷ (bs ++ post)))) ≡ b ∷ bs
unfolding trim_front
trimmed b bs pre post f s h k =
    ap trim_back (trim_front-Blank pre (b ∷ (bs ++ post)) h ∙ rw f refl)
    ∙ trim_back-solid b bs post s k

unescape_other : (b : ℕ) (bs : Bytes) → b ≢ 92 → unescape (b ∷ bs) ≡ b ∷ unescape bs
unfolding unescape
unescape_other b [] h = refl
unescape_other b (c ∷ cs) h = ground arith

unescape_plain : (bs : Bytes) → Avoids 92 bs → unescape bs ≡ bs
unfolding unescape
unescape_plain [] h = refl
unescape_plain (b ∷ bs) h = unescape_other b bs h.0 ∙ ap (◌∷◌ b) (unescape_plain bs h.1)

unescape-escape : (bs : Bytes) → Avoids 92 bs → unescape (escape bs) ≡ bs
unfolding unescape escape
unescape-escape [] h = refl
unescape-escape (b ∷ bs) h = elim (Bool-cases (b == b' ')) [
  | inl e ↦ rw e (rw e (unescape_other b (escape bs) h.0 ∙ ap (◌∷◌ b) (unescape-escape bs h.1)))
  | inr e ↦ rw e (unescape_other b (escape bs) h.0 ∙ ap (◌∷◌ b) (unescape-escape bs h.1))
]

SolidBack-escape : (b : ℕ) (bs : Bytes) → SolidBack b bs → SolidBack b (escape bs)
unfolding escape
SolidBack-escape b [] s = s
SolidBack-escape b (c ∷ cs) s =
    if-cases (SolidBack b) (c == b' ') (λ _. SolidBack-escape c cs s) (λ _. SolidBack-escape c cs s)

SolidBack-quoted : (b q : ℕ) (bs : Bytes) → is_space q ≡ false → SolidBack b (bs ++ (q ∷ []))
SolidBack-quoted b q [] h = h
SolidBack-quoted b q (c ∷ cs) h = SolidBack-quoted c q cs h

back_quoted : (b q : ℕ) (bs : Bytes) → back b (bs ++ (q ∷ [])) ≡ q
unfolding back
back_quoted b q [] = refl
back_quoted b q (c ∷ cs) = back_quoted c q cs

pop_back-quoted : (q : ℕ) (bs : Bytes) → pop_back (bs ++ (q ∷ [])) ≡ bs
unfolding pop_back
pop_back-quoted q [] = refl
pop_back-quoted q (b ∷ []) = refl
pop_back-quoted q (b ∷ (c ∷ cs)) = ap (◌∷◌ b) (pop_back-quoted q (c ∷ cs))

unquoted :
    (b : ℕ) (bs : Bytes) → (b == 39) ≡ false → (b == 34) ≡ false → strip_quotes (b ∷ bs) ≡ b ∷ bs
unfolding strip_quotes
unquoted b [] s d = refl
unquoted b (c ∷ cs) s d = rw (s, d) refl

quoted :
    (q b : ℕ) (bs : Bytes)
    → (q ≡ 39) ⊎ (q ≡ 34)
    → strip_quotes (q ∷ (b ∷ (bs ++ (q ∷ [])))) ≡ b ∷ bs
unfolding strip_quotes
quoted q b bs h = rw (back_quoted b q bs, pop_back-quoted q (b ∷ bs)) (ground arith)

in_quotes :
    (q b : ℕ) (bs pre post : Bytes)
    → (q ≡ 39) ⊎ (q ≡ 34)
    → Avoids 92 (b ∷ bs)
    → Blank pre
    → Blank post
    → path_argument (pre ++ ((q ∷ (b ∷ (bs ++ (q ∷ [])))) ++ post)) ≡ b ∷ bs
unfolding path_argument
in_quotes q b bs pre post h a x y =
    let solid : is_space q ≡ false = ground arith in
    ap (λ w. unescape (strip_quotes w))
      (trimmed q (b ∷ (bs ++ (q ∷ []))) pre post solid (SolidBack-quoted b q bs solid) x y)
    ∙ ap unescape (quoted q b bs h)
    ∙ unescape_plain (b ∷ bs) a

-- A path without backslashes whose first and last byte are no blanks and whose first is no quote,
-- written as it is, with its spaces escaped, or in quotes, and with any blanks around it: the
-- argument of the file command is the path.
pub path-Written :
    (b : ℕ) (bs pre w post : Bytes)
    → IsPlain b bs
    → Written (b ∷ bs) w
    → Blank pre
    → Blank post
    → path_argument (pre ++ (w ++ post)) ≡ b ∷ bs
unfolding path_argument escape
path-Written b bs pre w post h typed x y =
    ap (λ v. unescape (strip_quotes v)) (trimmed b bs pre post h.front h.solid x y)
    ∙ ap unescape (unquoted b bs h.no_single h.no_double)
    ∙ unescape_plain (b ∷ bs) h.no_backslash
path-Written b bs pre w post h dropped x y =
    let plain : (b == b' ') ≡ false = not_space b h.front in
    ap (λ v. path_argument (pre ++ (v ++ post)))
      (ap (λ t. if t then 92 ∷ (b ∷ escape bs) else b ∷ escape bs) plain)
    ∙ ap (λ v. unescape (strip_quotes v))
        (trimmed b (escape bs) pre post h.front (SolidBack-escape b bs h.solid) x y)
    ∙ ap unescape (unquoted b (escape bs) h.no_single h.no_double)
    ∙ unescape_other b (escape bs) (h.no_backslash).0
    ∙ ap (◌∷◌ b) (unescape-escape bs (h.no_backslash).1)
  where
    not_space : (c : ℕ) → is_space c ≡ false → (c == b' ') ≡ false
    not_space c e = ground arith
path-Written b bs pre w post h single_quoted x y =
    in_quotes 39 b bs pre post (inl refl) h.no_backslash x y
path-Written b bs pre w post h double_quoted x y =
    in_quotes 34 b bs pre post (inr refl) h.no_backslash x y
