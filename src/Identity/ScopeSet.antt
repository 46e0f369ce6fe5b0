-- ===== src/Identity/ScopeSet.antt =====
-- src/identity-access/domain/value-objects/scope-set.ts
use Prim.Native.String.{◌++◌}
use volunteer_training.Prelude.{
  Bool, true, false, not, ◌&&◌, Option, none, some, List, [], ◌∷◌, String, contains, add_all,
  length, nat_beq, if◌then◌else◌, string_eq,
}
use volunteer_training.Prelude.Result.{Result, ok, throws}

pub data Platform : Type 0 where
  gmail outlook : Platform

abbrev pub platform_name : Platform → String
platform_name gmail = "gmail"
platform_name outlook = "outlook"

-- `GMAIL_MIN_SCOPES` and `OUTLOOK_MIN_SCOPES`
abbrev pub min_scopes : Platform → List String
min_scopes gmail = "gmail.modify" ∷ "gmail.labels" ∷ []
min_scopes outlook = "Mail.ReadWrite" ∷ "MailboxSettings.ReadWrite" ∷ []

pub record ScopeSet : Type 0 where
  pub scopes : List String
  pub platform : Platform

-- The first of some scopes that a set does not have: both loops of `validate`.
unfoldable pub first_outside : List String → List String → Option String
first_outside set [] = none
first_outside set (s ∷ ss) = if not (contains s set) then some s else first_outside set ss

-- The loop over the scopes that are given.
unfoldable pub check_allowed : ScopeSet → Option String → Result ScopeSet
check_allowed s none = ok s
check_allowed s (some scope) = throws ("Scope " ++ (scope ++ " exceeds minimal required set"))

-- The loop over the scopes that are required, then the other.
unfoldable pub check_required : ScopeSet → Option String → Result ScopeSet
unfolding check_allowed first_outside
check_required s (some required) =
    throws ("Missing required scope for " ++ (platform_name s.platform ++ (": " ++ required)))
check_required s none = check_allowed s (first_outside (min_scopes s.platform) s.scopes)

-- The constructor, `forGmail` and `forOutlook`.
unfoldable pub scope_set : List String → Platform → Result ScopeSet
unfolding check_required
scope_set scopes platform =
    check_required (record { scopes = scopes; platform = platform })
      (first_outside scopes (min_scopes platform))

unfoldable pub minimal : Platform → ScopeSet
minimal platform = record { scopes = min_scopes platform; platform = platform }

abbrev pub all_in : List String → List String → Bool
all_in set [] = true
all_in set (s ∷ ss) = contains s set && all_in set ss

unfoldable pub equals : ScopeSet → ScopeSet → Bool
equals a b =
    let these = add_all a.scopes [] in
    let those = add_all b.scopes [] in
    if not (nat_beq (length these) (length those)) then false else all_in those these
