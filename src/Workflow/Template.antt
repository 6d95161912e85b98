-- ===== src/Workflow/Template.antt =====
-- agentflow/workflow/template_engine.h, template_engine.cc and eval_context.h: templates with paths.
pub mod Print
pub mod RoundTrip
mod Tests
use zen_agent.Common.{
  ℕ, zero, suc, ◌+◌, Bool, true, false, ◌||◌, ◌&&◌, List, [], ◌∷◌, ◌++◌, Option, none, some, eqb,
  if◌then◌else◌, length, take, drop, bytes_equality, ◌==◌,
}
use zen_agent.Common.Int.{ℤ}
use zen_agent.Common.Bytes.{Bytes, ascii, find, starts_with}
use zen_agent.Common.Json.{Json, null, integer, str, at, string_of}

pub data Segment : Type 0 where
  literal : Bytes → Segment
  path : List Bytes → Segment

pub data TemplateError : Type 0 where
  unbalanced_open : TemplateError
  unmatched_close : TemplateError
  unknown_head : Bytes → TemplateError

pub data Scanned : Type 0 where
  segments : List Segment → Scanned
  scan_failed : TemplateError → Scanned

unfoldable pub known_head : Bytes → Bool
known_head head =
    head == ascii "state"
    || head == ascii "parent"
    || head == ascii "tool"
    || head == ascii "workflow"
    || head == ascii "now"

unfoldable pub is_blank : ℕ → Bool
is_blank c = eqb c b' ' || eqb c b'\t'

-- `remove_prefix` as long as the first byte is blank.
unfoldable pub trim_front : Bytes → Bytes
unfolding is_blank
trim_front [] = []
trim_front (c ∷ s) = if is_blank c then trim_front s else c ∷ s

unfoldable pub all_blank : Bytes → Bool
unfolding is_blank
all_blank [] = true
all_blank (c ∷ s) = is_blank c && all_blank s

-- `remove_suffix` as long as the last byte is blank.
unfoldable pub trim_back : Bytes → Bytes
unfolding all_blank
trim_back [] = []
trim_back (c ∷ s) = if all_blank (c ∷ s) then [] else c ∷ trim_back s

unfoldable pub put_front : ℕ → List Bytes → List Bytes
put_front c [] = (c ∷ []) ∷ []
put_front c (p ∷ ps) = (c ∷ p) ∷ ps

-- `absl::StrSplit` at points.
unfoldable pub split_points : Bytes → List Bytes
unfolding put_front
split_points [] = [] ∷ []
split_points (c ∷ s) = if eqb c b'.' then [] ∷ split_points s else put_front c (split_points s)

-- One round of the loop: a byte for the literal, or a substitution.
pub data Round : Type 0 where
  pushes : ℕ → Bytes → Round
  substitutes : List Bytes → Bytes → Round
  finished : TemplateError → Round

unfoldable pub by_head : List Bytes → Bytes → Round
unfolding known_head
by_head [] rest = finished (unknown_head [])
by_head (h ∷ ps) rest =
    if known_head h then substitutes (h ∷ ps) rest else finished (unknown_head h)

-- What lies behind the opening braces, cut at the closing ones.
unfoldable pub substitution : Option ℕ → Bytes → Round
unfolding by_head split_points trim_back trim_front
substitution none s = finished unbalanced_open
substitution (some i) s =
    by_head (split_points (trim_back (trim_front (take i s)))) (drop (i + 2) s)

unfoldable pub round : ℕ → Bytes → Round
unfolding substitution
round c s =
    if eqb c 92 && starts_with s (b'{' ∷ [])
    then pushes b'{' (drop 1 s)
    else if eqb c b'{' && starts_with s (b'{' ∷ [])
    then substitution (find (drop 1 s) (b'}' ∷ b'}' ∷ [])) (drop 1 s)
    else if eqb c b'}' && starts_with s (b'}' ∷ [])
    then finished unmatched_close
    else pushes c s

-- A literal is a segment where it has bytes.
unfoldable pub flush : Bytes → List Segment → List Segment
flush [] gs = gs
flush (c ∷ lit) gs = literal (c ∷ lit) ∷ gs

unfoldable pub with_segments : Bytes → List Bytes → Scanned → Scanned
unfolding flush
with_segments lit ps (segments gs) = segments (flush lit (path ps ∷ gs))
with_segments lit ps (scan_failed e) = scan_failed e

-- The loop, with the literal so far; every round takes a byte, so the length is enough fuel.
unfoldable pub scan : ℕ → Bytes → Bytes → Scanned
unfolding round with_segments flush
scan f [] lit = segments (flush lit [])
scan zero (c ∷ s) lit = segments (flush lit [])
scan (suc f) (c ∷ s) lit = elim (round c s) [
  | pushes b rest ↦ scan f rest (lit ++ b ∷ [])
  | substitutes ps rest ↦ with_segments lit ps (scan f rest [])
  | finished e ↦ scan_failed e
]

pub record TemplateString : Type 0 where
  pub source : Bytes
  pub segs : List Segment
  pub single_substitution : Bool

pub data Parsed : Type 0 where
  ok : TemplateString → Parsed
  failed : TemplateError → Parsed

-- `paths()`; its length is the number of substitutions.
unfoldable pub paths : List Segment → List (List Bytes)
paths [] = []
paths (literal t ∷ gs) = paths gs
paths (path ps ∷ gs) = ps ∷ paths gs

abbrev pub template_of : Bytes → Scanned → Parsed
template_of expr (scan_failed e) = failed e
template_of expr (segments gs) = ok (record {
  source = expr;
  segs = gs;
  single_substitution = eqb (length (paths gs)) 1 && eqb (length gs) 1;
})

-- `TemplateString::Parse`.
unfoldable pub parse : Bytes → Parsed
unfolding scan paths
parse expr = template_of expr (scan (length expr) expr [])

-- A state: its JSON value where `AsJson` has one, or what `ReadStringField` reads of it.
pub data StateView : Type 0 where
  as_json : Json → StateView
  fields_read : (Bytes → Bytes) → StateView

-- `EvalContext`; of the time, what the functions of absl make of it.
pub record EvalContext : Type 0 where
  pub state : Option StateView
  pub parent_state : Option StateView
  pub tool_args : Option Json
  pub workflow_name : Bytes
  pub workflow_version : Bytes
  pub now_iso : Bytes
  pub now_unix_micros : ℤ
  pub now_unix_seconds : ℤ

-- The walk through objects.
unfoldable pub walk : List Bytes → Json → Json
walk [] v = v
walk (k ∷ ks) v = elim (at k v) [ none ↦ null | some w ↦ walk ks w ]

unfoldable pub dotted : List Bytes → Bytes
dotted [] = []
dotted (p ∷ []) = p
dotted (p ∷ q ∷ ps) = p ++ b'.' ∷ dotted (q ∷ ps)

unfoldable pub read_state : Option StateView → List Bytes → Json
unfolding walk dotted
read_state none ps = null
read_state (some (as_json v)) ps = walk ps v
read_state (some (fields_read read)) ps = str (read (dotted ps))

abbrev pub of_workflow : EvalContext → List Bytes → Json
of_workflow ctx [] = null
of_workflow ctx (p ∷ ps) =
    if p == ascii "name"
    then str ctx.workflow_name
    else if p == ascii "version"
    then str ctx.workflow_version
    else null

abbrev pub of_now : EvalContext → List Bytes → Json
of_now ctx [] = null
of_now ctx (p ∷ ps) =
    if p == ascii "iso"
    then str ctx.now_iso
    else if p == ascii "unix_micros"
    then integer ctx.now_unix_micros
    else if p == ascii "unix_seconds"
    then integer ctx.now_unix_seconds
    else null

abbrev pub of_tool : Option Json → List Bytes → Json
of_tool none ps = null
of_tool (some v) [] = null
of_tool (some v) (p ∷ ps) = walk (p ∷ ps) v

abbrev pub of_state : Option StateView → List Bytes → Json
of_state st [] = null
of_state st (p ∷ ps) = read_state st (p ∷ ps)

abbrev pub of_parent : Option StateView → List Bytes → Json
of_parent st [] = null
of_parent st (p ∷ []) = null
of_parent st (p ∷ q ∷ ps) = if p == ascii "state" then read_state st (q ∷ ps) else null

-- `Resolve`.
unfoldable pub resolve : EvalContext → List Bytes → Json
unfolding read_state
resolve ctx [] = null
resolve ctx (head ∷ ps) =
    if head == ascii "workflow"
    then of_workflow ctx ps
    else if head == ascii "now"
    then of_now ctx ps
    else if head == ascii "tool"
    then of_tool ctx.tool_args ps
    else if head == ascii "state"
    then of_state ctx.state ps
    else if head == ascii "parent"
    then of_parent ctx.parent_state ps
    else null

module _ (dump : Json → Bytes) where
  unfoldable pub stringify : Json → Bytes
  stringify null = []
  stringify v = elim (string_of v) [ none ↦ dump v | some t ↦ t ]

  -- The interpolation.
  unfoldable pub interpolate : EvalContext → List Segment → Bytes
  unfolding stringify resolve
  interpolate ctx [] = []
  interpolate ctx (literal t ∷ gs) = t ++ interpolate ctx gs
  interpolate ctx (path ps ∷ gs) = stringify (resolve ctx ps) ++ interpolate ctx gs

  -- The parts that `std::get<PathSeg>` gives, of the first segment.
  abbrev first_path : List Segment → List Bytes
  first_path [] = []
  first_path (literal t ∷ gs) = []
  first_path (path ps ∷ gs) = ps

  -- `Evaluate`.
  unfoldable pub evaluate : EvalContext → TemplateString → Json
  unfolding interpolate resolve
  evaluate ctx t =
      if t.single_substitution
      then resolve ctx (first_path t.segs)
      else str (interpolate ctx t.segs)
