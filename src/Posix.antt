-- ===== src/Posix.antt =====
-- The operating system that the programs call: files by path, and the results that a run of
-- system calls gets. Which of the other calls fail is an argument of the code.
use meraki_builder.Prelude.{
  Bytes, bytes_eq, bytes_eq_refl, bytes_eq→eq, false, Option, none, some, ◌++◌, ◌≡◌, ◌≢◌, refl,
  arith, if◌then◌else◌, inl, inr, Bool-cases, Option-cases, ◌∙◌,
}

abbrev pub Files : Type 0
Files = Bytes → Option Bytes

unfoldable pub put_file : Bytes → Bytes → Files → Files
put_file path content fs p = if bytes_eq path p then some content else fs p

-- Removing a file. The call is taken to succeed: what it does on a read-only file system or where a
-- directory stands is not modelled.
unfoldable pub unlink : Bytes → Files → Files
unlink path fs p = if bytes_eq path p then none else fs p

-- `rename` replaces a file at the target; without a source it does nothing.
unfoldable pub rename : Bytes → Bytes → Files → Files
rename from to fs = elim (fs from) [
  | none ↦ fs
  | some content ↦ put_file to content (unlink from fs)
]

-- Writing at the end of an open file.
unfoldable pub append_file : Bytes → Bytes → Files → Files
append_file path more fs = elim (fs path) [
  | none ↦ fs
  | some content ↦ put_file path (content ++ more) fs
]

unfoldable pub no_files : Files
no_files p = none

pub bytes_ne : (a b : Bytes) → a ≢ b → bytes_eq a b ≡ false
bytes_ne a b h = elim (Bool-cases (bytes_eq a b)) [
  | inl e ↦ absurd (h (bytes_eq→eq a b e))
  | inr e ↦ e
]

pub put_file_self :
    (path content : Bytes) (fs : Files) → put_file path content fs path ≡ some content
unfolding put_file
put_file_self path content fs = rw (bytes_eq_refl path)

pub put_file_ne :
    (path content : Bytes) (fs : Files) (p : Bytes) → path ≢ p → put_file path content fs p ≡ fs p
unfolding put_file
put_file_ne path content fs p h = rw (bytes_ne path p h)

pub unlink_self : (path : Bytes) (fs : Files) → unlink path fs path ≡ none
unfolding unlink
unlink_self path fs = rw (bytes_eq_refl path)

pub unlink_ne : (path : Bytes) (fs : Files) (p : Bytes) → path ≢ p → unlink path fs p ≡ fs p
unfolding unlink
unlink_ne path fs p h = rw (bytes_ne path p h)

-- A removed path stays removed when others are.
pub unlink-none : (path : Bytes) (fs : Files) (p : Bytes) → fs p ≡ none → unlink path fs p ≡ none
unfolding unlink
unlink-none path fs p h = ground arith

pub append_file_self :
    (path content more : Bytes) (fs : Files)
    → fs path ≡ some content
    → append_file path more fs path ≡ some (content ++ more)
unfolding append_file
append_file_self path content more fs h =
    rw (h, append_file) (put_file_self path (content ++ more) fs)

pub append_file_ne :
    (path more : Bytes) (fs : Files) (p : Bytes) → path ≢ p → append_file path more fs p ≡ fs p
unfolding append_file
append_file_ne path more fs p h =
    elim (fs path)
      as (λ o.
        elim o as (λ _. Files) [ none ↦ fs | some content ↦ put_file path (content ++ more) fs ] p
        ≡ fs p) [ none ↦ refl | some content ↦ put_file_ne path (content ++ more) fs p h ]

pub rename_to :
    (from to content : Bytes) (fs : Files)
    → fs from ≡ some content
    → rename from to fs to ≡ some content
unfolding rename
rename_to from to content fs h = rw (h, rename) (put_file_self to content (unlink from fs))

pub rename_ne :
    (from to : Bytes) (fs : Files) (p : Bytes) → from ≢ p → to ≢ p → rename from to fs p ≡ fs p
unfolding rename
rename_ne from to fs p h k = elim (Option-cases (fs from)) [
  | inl e ↦ rw (e, rename)
  | inr (content, e) ↦
      rw (e, rename) (put_file_ne to content (unlink from fs) p k ∙ unlink_ne from fs p h)
]
