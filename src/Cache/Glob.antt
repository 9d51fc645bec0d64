-- ===== src/Cache/Glob.antt =====
-- The patterns of SCAN, as Redis documents them, so far as src/cache.rs uses them: `*` stands for any
-- text, and the other characters for themselves.
use Prim.Native.Char.{Char, char, code}
use Prim.Native.String.{String, ◌++◌}
use text.Mathlib.TextLemmas.{nil-append, cons-append, append-nil, append_assoc}
use iam_rust_auth.Base.{
  ◌≡◌, refl, ap, ◌∙◌, Bool, true, false, not, ◌&&◌, ◌||◌, ◌==◌, if◌then◌else◌, is_empty, arith,
  Bool-cases, inl, inr,
}
use iam_rust_auth.Cache.Defs.{perms_pattern, perms_key, or_dash}

abbrev pub some_suffix : (String → Bool) → String → Bool
some_suffix f String.[] = f String.[]
some_suffix f (String.◌∷◌ c s) = f (String.◌∷◌ c s) || some_suffix f s

abbrev pub meets : Char → (String → Bool) → String → Bool
meets p f String.[] = false
meets p f (String.◌∷◌ c s) = code p == code c && f s

unfoldable pub glob : String → String → Bool
glob String.[] k = is_empty k
glob (String.◌∷◌ p ps) k =
    let rest = glob ps in if code p == b'*' then some_suffix rest k else meets p rest k

-- No other character that is special in a pattern: `?`, `[` and the backslash.
unfoldable pub is_plain : String → Bool
is_plain String.[] = true
is_plain (String.◌∷◌ c s) = not (code c == b'?' || code c == b'[' || code c == 92) && is_plain s

some_suffix-here : (f : String → Bool) (s : String) → f s ≡ true → some_suffix f s ≡ true
some_suffix-here f String.[] h = h
some_suffix-here f (String.◌∷◌ c s) h = ground (arith, h)

some_suffix-append : (f : String → Bool) (s t : String) → f t ≡ true → some_suffix f (s ++ t) ≡ true
some_suffix-append f String.[] t h = rw (nil-append t) (some_suffix-here f t h)
some_suffix-append f (String.◌∷◌ c s) t h =
    rw (cons-append c s t) (ground (arith, some_suffix-append f s t h))

glob-cons :
    (c : Char) (s k : String) → glob s k ≡ true → glob (String.◌∷◌ c s) (String.◌∷◌ c k) ≡ true
unfolding glob
glob-cons c s k h = elim (Bool-cases (code c == b'*')) [
  | inl star ↦ rw star (ground (arith, some_suffix-here (glob s) k h))
  | inr other ↦ rw other (ground (arith, h))
]

-- A text in front of a pattern matches itself.
glob-append : (p s k : String) → glob s k ≡ true → glob (p ++ s) (p ++ k) ≡ true
glob-append String.[] s k h = rw (nil-append s, nil-append k) h
glob-append (String.◌∷◌ c p) s k h =
    rw (cons-append c p s, cons-append c p k) (glob-cons c (p ++ s) (p ++ k) (glob-append p s k h))

-- A star in front of a pattern passes over any text.
glob-star_char :
    (c : Char) (t s k : String)
    → (code c == b'*') ≡ true
    → glob s k ≡ true
    → glob (String.◌∷◌ c "" ++ s) (t ++ k) ≡ true
unfolding glob
glob-star_char c t s k star h =
    rw (cons-append c "" s, nil-append s, star) (some_suffix-append (glob s) t k h)

glob-star : (t s k : String) → glob s k ≡ true → glob ("*" ++ s) (t ++ k) ≡ true
glob-star t s k h = glob-star_char (char b'*' tt) t s k refl h

is_plain-append : (s t : String) → is_plain (s ++ t) ≡ (is_plain s && is_plain t)
unfolding is_plain
is_plain-append String.[] t = rw (nil-append t) refl
is_plain-append (String.◌∷◌ c s) t = rw (cons-append c s t) (ground (arith, is_plain-append s t))

pub perms_pattern-plain :
    (user : String) → is_plain user ≡ true → is_plain (perms_pattern user) ≡ true
unfolding is_plain
perms_pattern-plain user h = rw (append-nil user) (is_plain-append "perms:*:*:" user ∙ h)

pattern_parts : (s : String) → "perms:*:*:" ++ s ≡ "perms:" ++ ("*" ++ (":" ++ ("*" ++ (":" ++ s))))
pattern_parts s =
    append_assoc "perms:" "*:*:" s
    ∙ ap (λ x. "perms:" ++ x)
        (append_assoc "*" ":*:" s
          ∙ ap (λ x. "*" ++ x)
              (append_assoc ":" "*:" s ∙ ap (λ x. ":" ++ x) (append_assoc "*" ":" s)))

empty : glob "" "" ≡ true
unfolding glob
empty = refl

-- The pattern of a user matches every key of the user's permissions.
pub perms_pattern-matches :
    (tenant project user : String)
    → glob (perms_pattern user) (perms_key tenant project user) ≡ true
perms_pattern-matches tenant project user =
    let name = user ++ "" in
    let t = or_dash tenant in
    let p = or_dash project in
    let named : glob name name ≡ true = glob-append user "" "" empty in
    rw (pattern_parts name) (
      glob-append "perms:" _ _
        (glob-star t _ _ (glob-append ":" _ _ (glob-star p _ _ (glob-append ":" name name named)))))
