-- ===== src/Libc/Ctype.antt =====
-- <ctype.h> in the C locale.
use meraki_builder.Prelude.{ℕ, ◌+◌, Bool, ◌||◌, ◌&&◌, leb, ◌==◌, if◌then◌else◌, ◌≡◌, arith}

abbrev pub isdigit : ℕ → Bool
isdigit c = leb b'0' c && leb c b'9'

abbrev pub isupper : ℕ → Bool
isupper c = leb b'A' c && leb c b'Z'

abbrev pub islower : ℕ → Bool
islower c = leb b'a' c && leb c b'z'

abbrev pub isalpha : ℕ → Bool
isalpha c = isupper c || islower c

abbrev pub isalnum : ℕ → Bool
isalnum c = isalpha c || isdigit c

abbrev pub isxdigit : ℕ → Bool
isxdigit c = isdigit c || (leb b'a' c && leb c b'f') || (leb b'A' c && leb c b'F')

-- Tab, newline, vertical tab, form feed, carriage return, space.
abbrev pub isspace : ℕ → Bool
isspace c = (leb 9 c && leb c 13) || c == 32

abbrev pub iscntrl : ℕ → Bool
iscntrl c = leb c 31 || c == 127

unfoldable pub tolower : ℕ → ℕ
tolower c = if isupper c then c + 32 else c

pub tolower_idem : (c : ℕ) → tolower (tolower c) ≡ tolower c
unfolding tolower
tolower_idem c = ground arith
