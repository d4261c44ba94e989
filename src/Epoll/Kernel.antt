-- ===== src/Epoll/Kernel.antt =====
-- epoll_ctl(2) of Linux, which is not part of the repository: the driver takes it as a parameter.
use common_framework.Base.{
  ℕ, ◌≡◌, refl, sym, ap, ◌∙◌, ◌≢◌, ◌&&◌, Option, none, some, ◌==◌, if◌then◌else◌, ne→==, ==_refl,
  some_inj,
}

-- EPOLLIN|EPOLLRDHUP, EPOLLOUT, and all of them.
pub data Interest : Type 0 where
  reads writes both : Interest

-- `none` is a result -1. The laws are the documented ones: EPOLL_CTL_MOD and EPOLL_CTL_DEL fail with
-- ENOENT exactly on a descriptor that is not in the set, and EPOLL_CTL_ADD fails with EEXIST on one that
-- is; a call changes the entry of its own set and descriptor only.
pub record EpollOps : Type 1 where
  pub Kernel : Type 0
  pub ctl_add : ℕ → ℕ → Interest → Kernel → Option Kernel
  pub ctl_mod : ℕ → ℕ → Interest → Kernel → Option Kernel
  pub ctl_del : ℕ → ℕ → Kernel → Option Kernel
  -- What a set holds for a descriptor.
  pub entry : ℕ → ℕ → Kernel → Option Interest
  pub add_there :
      (ep fd : ℕ) (i j : Interest) (k : Kernel) → entry ep fd k ≡ some j → ctl_add ep fd i k ≡ none
  pub add_self :
      (ep fd : ℕ) (i : Interest) (k k' : Kernel)
      → ctl_add ep fd i k ≡ some k'
      → entry ep fd k' ≡ some i
  pub add_other :
      (ep fd ep' : ℕ) (i : Interest) (k k' : Kernel)
      → ctl_add ep fd i k ≡ some k'
      → ep ≢ ep'
      → entry ep' fd k' ≡ entry ep' fd k
  pub mod_there :
      (ep fd : ℕ) (i j : Interest) (k : Kernel)
      → entry ep fd k ≡ some j
      → (k' : Kernel) × (ctl_mod ep fd i k ≡ some k') × (entry ep fd k' ≡ some i)
  pub mod_missing :
      (ep fd : ℕ) (i : Interest) (k : Kernel) → entry ep fd k ≡ none → ctl_mod ep fd i k ≡ none
  pub del_there :
      (ep fd : ℕ) (j : Interest) (k : Kernel)
      → entry ep fd k ≡ some j
      → (k' : Kernel) × (ctl_del ep fd k ≡ some k') × (entry ep fd k' ≡ none)
  pub del_missing : (ep fd : ℕ) (k : Kernel) → entry ep fd k ≡ none → ctl_del ep fd k ≡ none

-- Sets as a function: the parameter's laws can be met.
abbrev pub Sets : Type 0
Sets = ℕ → ℕ → Option Interest

abbrev pub put : ℕ → ℕ → Option Interest → Sets → Sets
put ep fd v k a b = if (a == ep) && (b == fd) then v else k a b

pub put_self : (ep fd : ℕ) (v : Option Interest) (k : Sets) → put ep fd v k ep fd ≡ v
put_self ep fd v k = rw (==_refl ep, ==_refl fd) refl

abbrev pub if_missing : Option Interest → Sets → Option Sets
if_missing none k = some k
if_missing (some i) k = none

abbrev pub if_there : Option Interest → Sets → Option Sets
if_there none k = none
if_there (some i) k = some k

pub if_missing-some : (o : Option Interest) (k k' : Sets) → if_missing o k ≡ some k' → k' ≡ k
if_missing-some none k k' e = sym (some_inj e)
if_missing-some (some i) k k' e = cc

abbrev pub epoll_sets : EpollOps
epoll_sets = record {
  Kernel = Sets;
  ctl_add = λ ep fd i k. if_missing (k ep fd) (put ep fd (some i) k);
  ctl_mod = λ ep fd i k. if_there (k ep fd) (put ep fd (some i) k);
  ctl_del = λ ep fd k. if_there (k ep fd) (put ep fd none k);
  entry = λ ep fd k. k ep fd;
  add_there = λ ep fd i j k e. rw e refl;
  add_self = λ ep fd i k k' e.
      ap (λ s. s ep fd) (if_missing-some (k ep fd) (put ep fd (some i) k) k' e)
      ∙ put_self ep fd (some i) k;
  add_other = λ ep fd ep' i k k' e ne.
      ap (λ s. s ep' fd) (if_missing-some (k ep fd) (put ep fd (some i) k) k' e)
      ∙ rw (ne→== ep' ep (λ z. ne (sym z))) refl;
  mod_there = λ ep fd i j k e. (put ep fd (some i) k, rw e refl, put_self ep fd (some i) k);
  mod_missing = λ ep fd i k e. rw e refl;
  del_there = λ ep fd j k e. (put ep fd none k, rw e refl, put_self ep fd none k);
  del_missing = λ ep fd k e. rw e refl;
}
