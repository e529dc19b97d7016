-- ===== src/World/Paths/Category.antt =====
-- survol/scripts/dockit.py: `PathCategory`, with its regular expressions as lists of pieces.
use survol.Base.{
  ℕ, ◌+◌, ◌==◌, Text, codes, starts_with, List, [], ◌∷◌, Option, none, some, Bool, true, false,
  ◌&&◌, ◌||◌, not, if◌then◌else◌, length, drop, take,
}
use survol.Symbols.{rfind_in}

-- A text, `[^/]*` or `.*`; the dot stands for every character but a line end.
pub data Piece : Type 0 where
  chars : Text → Piece
  no_slash anything : Piece

-- Some end of the text, behind characters that are all allowed, passes the test.
unfoldable pub behind_run : (ℕ → Bool) → (Text → Bool) → Text → Bool
behind_run allowed passes [] = passes []
behind_run allowed passes (c ∷ s) =
    let rest = behind_run allowed passes s in passes (c ∷ s) || (allowed c && rest)

-- `re.match`: the pieces match the start of the text.
unfoldable pub matches : List Piece → Text → Bool
unfolding starts_with behind_run
matches [] s = true
matches (chars t ∷ ps) s = let rest = matches ps (drop (length t) s) in starts_with s t && rest
matches (no_slash ∷ ps) s = behind_run (λ c. not (c == b'/')) (matches ps) s
matches (anything ∷ ps) s = behind_run (λ c. not (c == 10)) (matches ps) s

-- `G_lstFilters`
abbrev pub filters : List (Text × List (List Piece))
filters =
    (
      codes "Shared libraries",
      (chars (codes "/usr/lib")
            ∷ no_slash
            ∷ chars (codes "/")
            ∷ anything
            ∷ chars (codes ".so")
            ∷ [])
          ∷ (chars (codes "/usr/lib")
              ∷ no_slash
              ∷ chars (codes "/")
              ∷ anything
              ∷ chars (codes ".so.")
              ∷ anything
              ∷ [])
          ∷ (chars (codes "/var/lib")
              ∷ no_slash
              ∷ chars (codes "/")
              ∷ anything
              ∷ chars (codes ".so")
              ∷ [])
          ∷ (chars (codes "/lib/") ∷ anything ∷ chars (codes ".so") ∷ [])
          ∷ (chars (codes "/lib64/") ∷ anything ∷ chars (codes ".so") ∷ [])
          ∷ [],
    )
    ∷ (
      codes "System config files",
      (chars (codes "/etc/") ∷ [])
          ∷ (chars (codes "/usr/share/fonts/") ∷ [])
          ∷ (chars (codes "/usr/share/fontconfig/") ∷ [])
          ∷ (chars (codes "/usr/share/fontconfig/") ∷ [])
          ∷ (chars (codes "/usr/share/locale/") ∷ [])
          ∷ (chars (codes "/usr/share/zoneinfo/") ∷ [])
          ∷ [],
    )
    ∷ (
      codes "Other libraries",
      (chars (codes "/usr/share/") ∷ [])
          ∷ (chars (codes "/usr/lib") ∷ no_slash ∷ chars (codes "/") ∷ [])
          ∷ (chars (codes "/var/lib") ∷ no_slash ∷ chars (codes "/") ∷ [])
          ∷ [],
    )
    ∷ (
      codes "System executables",
      (chars (codes "/bin/") ∷ [])
          ∷ (chars (codes "/usr/bin") ∷ no_slash ∷ chars (codes "/") ∷ [])
          ∷ [],
    )
    ∷ (codes "Kernel file systems", (chars (codes "/proc") ∷ []) ∷ (chars (codes "/run") ∷ []) ∷ [])
    ∷ (
      codes "Temporary files",
      (chars (codes "/tmp/") ∷ [])
          ∷ (chars (codes "/var/log/") ∷ [])
          ∷ (chars (codes "/var/cache/") ∷ [])
          ∷ [],
    )
    ∷ (
      codes "Pipes and terminals",
      (chars (codes "/sys") ∷ [])
          ∷ (chars (codes "/dev") ∷ [])
          ∷ (chars (codes "pipe:") ∷ [])
          ∷ (chars (codes "socket:") ∷ [])
          ∷ (chars (codes "UNIX:") ∷ [])
          ∷ (chars (codes "NETLINK:") ∷ [])
          ∷ [],
    )
    ∷ (
      codes "Connected TCP sockets",
      (chars (codes "TCP:[") ∷ anything ∷ chars (codes "->") ∷ anything ∷ chars (codes "]") ∷ [])
          ∷ (chars (codes "TCPv6:[")
              ∷ anything
              ∷ chars (codes "->")
              ∷ anything
              ∷ chars (codes "]")
              ∷ [])
          ∷ [],
    )
    ∷ (
      codes "Other TCP/IP sockets",
      (chars (codes "TCP:") ∷ [])
          ∷ (chars (codes "TCPv6:") ∷ [])
          ∷ (chars (codes "UDP:") ∷ [])
          ∷ (chars (codes "UDPv6:") ∷ [])
          ∷ [],
    )
    ∷ (codes "Others", [])
    ∷ []

unfoldable pub matches_any : List (List Piece) → Text → Bool
unfolding matches
matches_any [] s = false
matches_any (r ∷ rs) s = matches r s || matches_any rs s

-- The loop of `PathCategory` over the filters.
unfoldable pub first_category : List (Text × List (List Piece)) → Text → Text
unfolding matches_any
first_category [] s = codes "Others"
first_category (f ∷ fs) s =
    let rest = first_category fs s in if matches_any f.1 s then f.0 else rest

unfoldable pub path_category : Text → Text
unfolding first_category
path_category path_name = first_category filters path_name

-- The texts `->` and `]` that the greedy expression `.*->(.*)\]` finds, on the first line.
unfoldable pub first_line : Text → Text
first_line [] = []
first_line (c ∷ s) = if c == 10 then [] else c ∷ first_line s

-- `s.rfind("->")`, as the place behind it
unfoldable pub behind_last_arrow : Text → ℕ → Option ℕ
unfolding starts_with
behind_last_arrow [] i = none
behind_last_arrow (c ∷ s) i = elim (behind_last_arrow s (i + 1)) [
  | some j ↦ some j
  | none ↦ if starts_with (c ∷ s) (codes "->") then some (i + 2) else none
]

-- `re.match("<prefix>.*->(.*)\]", s)`, with the text of the group.
unfoldable pub match_peer : Text → Text → Option Text
unfolding starts_with first_line behind_last_arrow rfind_in
match_peer start s =
    let line = first_line (drop (length start) s) in
    if starts_with s start
    then elim (rfind_in b']' line 0) [
      | none ↦ none
      | some j ↦ elim (behind_last_arrow (take j line) 0) [
        | none ↦ none
        | some i ↦ some (drop i (take j line))
      ]
    ]
    else none
