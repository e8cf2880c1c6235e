-- ===== src/Relay/Router/Validate.antt =====
-- packages/relay/src/router.ts, the checks of `pty.create`: shell, working directory, terminal size.
use remote_ttys.Base.{ℕ, String, Bool, ◌||◌, ◌&&◌, not, List, [], ◌∷◌, any, eqb, leb, ◌==◌}
use remote_ttys.Base.Ints.{ℤ, pos, min_ℤ, max_ℤ}
use remote_ttys.Base.Texts.{codes}

-- JavaScript's `\s`.
unfoldable pub is_space : ℕ → Bool
is_space c =
    (leb 9 c && leb c 13)
    || eqb c 32
    || eqb c 0xa0
    || eqb c 0x1680
    || (leb 0x2000 c && leb c 0x200a)
    || eqb c 0x2028
    || eqb c 0x2029
    || eqb c 0x202f
    || eqb c 0x205f
    || eqb c 0x3000
    || eqb c 0xfeff

-- ; & | $ ` \ ' " ( ) { } [ ] < > ! # ~
abbrev pub shell_specials : List ℕ
shell_specials =
    59 ∷ 38 ∷ 124 ∷ 36 ∷ 96 ∷ 92 ∷ 39 ∷ 34 ∷ 40 ∷ 41 ∷ 123 ∷ 125 ∷ 91 ∷ 93 ∷ 60 ∷ 62 ∷ 33 ∷ 35 ∷ 126
    ∷ []

-- One character of the class /[;&|$`\\'"(){}\[\]<>!#~\s]/.
unfoldable pub is_shell_special : ℕ → Bool
unfolding is_space
is_shell_special c = any (eqb c) shell_specials || is_space c

-- The test that rejects a shell: not empty, and a character of the class somewhere.
unfoldable pub is_bad_shell : String → Bool
unfolding is_shell_special
is_bad_shell shell = not (shell == "") && any is_shell_special (codes shell)

unfoldable pub is_bad_cwd : String → Bool
is_bad_cwd cwd = not (cwd == "") && any (eqb 0) (codes cwd)

-- `Math.max(1, Math.min(n, 500))`.
unfoldable pub clamp_size : ℤ → ℤ
unfolding min_ℤ max_ℤ
clamp_size n = max_ℤ (pos 1) (min_ℤ n (pos 500))
