-- ===== src/Permissions/Session/Bounds.antt =====
-- A session's decision is the strongest of its own and of those of its bounds.
use Prim.Native.Nat.{max}
use lisptc.Prelude.{ℕ, ◌≤◌, String, ◌≡◌, true, none, some, List, [], ◌∷◌, map, any, arith}
use lisptc.Permissions.{allow, Ruling, ServerAccess, strength, server_strength}
use lisptc.Permissions.Rules
use lisptc.Permissions.Rules.{PermissionRules, or_verdict}
use lisptc.Permissions.Session.{
  SessionRules, strongest_from, asks_for, held_decides, decide, tightest_from, server,
}

-- the greatest strength in a list of rulings
abbrev pub greatest : List Ruling → ℕ
greatest [] = 0
greatest (ruling ∷ rulings) = max (strength ruling.verdict) (greatest rulings)

strength-strongest_from :
    (winner : Ruling) (rulings : List Ruling)
    → strength (or_verdict (strongest_from (some winner) rulings) allow).verdict
      ≡ max (strength winner.verdict) (greatest rulings)
unfolding strongest_from
strength-strongest_from winner [] = omega arith
strength-strongest_from winner (ruling ∷ rulings) =
    ground (arith, strength-strongest_from winner rulings, strength-strongest_from ruling rulings)

-- The decision of a session has exactly the greatest strength of its own rules' decision and the
-- decisions of all its bounds.
pub strength-session_decide :
    (s : SessionRules) (name : String)
    → strength (decide s name).verdict
      ≡ max
          (strength (held_decides s name).verdict)
          (greatest (map (λ bound. Rules.decide bound name) s.bounds))
unfolding decide
strength-session_decide s name =
    strength-strongest_from (held_decides s name) (map (λ bound. Rules.decide bound name) s.bounds)

held_decides-asked :
    (s : SessionRules) (name : String)
    → any (λ asked. asks_for asked name) s.asks ≡ true
    → Rules.named s.held name ≡ none
    → 1 ≤ strength (held_decides s name).verdict
unfolding held_decides
held_decides-asked s name listed unnamed = ground arith

-- A name on the session's list of things to ask for, which no rule of the session names, is never
-- simply allowed.
decide-asked :
    (s : SessionRules) (name : String)
    → any (λ asked. asks_for asked name) s.asks ≡ true
    → Rules.named s.held name ≡ none
    → 1 ≤ strength (decide s name).verdict
decide-asked s name listed unnamed =
    omega (arith, strength-session_decide s name, held_decides-asked s name listed unnamed)

-- the greatest strength of the access that bounds give
abbrev pub greatest_access : List PermissionRules → String → ℕ
greatest_access [] name = 0
greatest_access (bound ∷ bounds) name =
    max (server_strength (Rules.server bound name)) (greatest_access bounds name)

tightest_from-strength :
    (access : ServerAccess) (bounds : List PermissionRules) (name : String)
    → server_strength (tightest_from access bounds name)
      ≡ max (server_strength access) (greatest_access bounds name)
unfolding tightest_from
tightest_from-strength access [] name = omega arith
tightest_from-strength access (bound ∷ bounds) name = ground (
  arith,
  tightest_from-strength access bounds name,
  tightest_from-strength (Rules.server bound name) bounds name,
)

-- The access to a server is exactly as tight as the tightest of the session's and its bounds'.
strength-server :
    (s : SessionRules) (name : String)
    → server_strength (server s name) ≡ greatest_access (s.held ∷ s.bounds) name
unfolding server
strength-server s name = tightest_from-strength (Rules.server s.held name) s.bounds name
