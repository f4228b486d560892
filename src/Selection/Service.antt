-- ===== src/Selection/Service.antt =====
-- components/instanceGroup.ts and `shortName` of components/agentTree.ts: which logical service a
-- task belongs to. The regular expression engine is a parameter.
use nscouter.Base.{
  ℕ, true, false, not, Option, none, some, List, [], ◌&&◌, ◌∷◌, ◌++◌, ◌==◌, ◌===◌, if◌then◌else◌,
  nat_eq, list_eq,
}
use nscouter.Base.Text.{Text, trim}
use nscouter.Xlog.{AgentObject}

pub record GroupRule : Type 0 where
  pub tag_key : Text
  pub pattern : Text

-- A match: the group named `svc` and the first capture, where they took part.
pub record Match : Type 0 where
  pub svc : Option Text
  pub first : Option Text

-- `new RegExp(pattern)`, `none` where it throws, and `exec`, `none` for no match.
abbrev pub RegExp : Type 0
RegExp = Text → Option (Text → Option Match)

-- `split(d)`, the current piece in front.
abbrev split_from : ℕ → Text → Text → List Text
split_from d piece [] = piece ∷ []
split_from d piece (c ∷ s) = elim (c == d) [
  | true ↦ piece ∷ split_from d [] s
  | false ↦ split_from d (piece ++ c ∷ []) s
]

-- The last piece that is not empty.
abbrev last_piece : Option Text → List Text → Option Text
last_piece last [] = last
last_piece last ([] ∷ ps) = last_piece last ps
last_piece last ((c ∷ p) ∷ ps) = last_piece (some (c ∷ p)) ps

unfoldable pub short_name : Text → Text
short_name obj_name = elim (last_piece none (split_from b'/' [] obj_name)) [
  | none ↦ obj_name
  | some p ↦ p
]

-- `name !== undefined && name.trim() !== '' ? name.trim() : null`.
abbrev non_empty : Option Text → Option Text
non_empty none = none
non_empty (some name) = if trim name === [] then none else some (trim name)

abbrev from_match : Option Match → Option Text
from_match none = none
from_match (some m) = elim m.svc [ none ↦ non_empty m.first | some name ↦ non_empty (some name) ]

abbrev from_name : Option (Text → Option Match) → Text → Option Text
from_name none short = none
from_name (some exec) short = from_match (exec short)

module _ (re : RegExp) (rule : GroupRule) where
  -- The loop over the tags, then the rule on the name.
  unfoldable pub from_tags : List (Text × Text) → Text → Option Text
  from_tags [] name = from_name (re rule.pattern) (short_name name)
  from_tags ((k, v) ∷ tags) name =
      if (k === rule.tag_key) && not (trim v === []) then some (trim v) else from_tags tags name

  unfoldable pub service_name_of : AgentObject → Option Text
  unfolding from_tags
  service_name_of agent = from_tags agent.tags agent.obj_name
