-- ===== src/Base/CString.antt =====
-- C strings as the list of their bytes without the final zero, and the calls of <string.h> that
-- the framework makes on them.
use Prim.Native.Nat.{ℕ, ◌+◌}
use Prim.Native.Char.{code}
use Prim.Native.String.{String}
use mathlib.Core.Path.{◌≡◌, refl}
use mathlib.Core.Bool.{Bool, true, false, ◌&&◌}
use mathlib.Core.List.{List, [], ◌∷◌}
use native.Mathlib.Omega.{arith}
use common_framework.Base.Tests.{leb, ◌==◌, if◌then◌else◌}

abbrev pub CString : Type 0
CString = List ℕ

-- A text literal as a C string; its bytes, for ASCII.
abbrev pub lit : String → CString
lit String.[] = []
lit (String.◌∷◌ c s) = code c ∷ lit s

-- tolower(3) in the C locale.
unfoldable pub tolower : ℕ → ℕ
tolower c = if leb b'A' c && leb c b'Z' then c + 32 else c

-- strcasecmp(a, b) == 0.
unfoldable pub same_nocase : CString → CString → Bool
same_nocase [] [] = true
same_nocase [] (d ∷ t) = false
same_nocase (c ∷ s) [] = false
same_nocase (c ∷ s) (d ∷ t) = (tolower c == tolower d) && same_nocase s t

pub same_nocase_refl : (s : CString) → same_nocase s s ≡ true
unfolding same_nocase
same_nocase_refl [] = refl
same_nocase_refl (c ∷ s) = ground (arith, same_nocase_refl s)

pub same_nocase_sym : (s t : CString) → same_nocase s t ≡ same_nocase t s
unfolding same_nocase
same_nocase_sym [] [] = refl
same_nocase_sym [] (d ∷ t) = refl
same_nocase_sym (c ∷ s) [] = refl
same_nocase_sym (c ∷ s) (d ∷ t) = ground (arith, same_nocase_sym s t)

pub same_nocase_trans :
    (s t u : CString) → same_nocase s t ≡ true → same_nocase t u ≡ true → same_nocase s u ≡ true
unfolding same_nocase
same_nocase_trans [] [] u p q = q
same_nocase_trans [] (d ∷ t) u p q = ground arith
same_nocase_trans (c ∷ s) [] u p q = ground arith
same_nocase_trans (c ∷ s) (d ∷ t) [] p q = ground arith
same_nocase_trans (c ∷ s) (d ∷ t) (e ∷ u) p q = ground (arith, same_nocase_trans s t u)
