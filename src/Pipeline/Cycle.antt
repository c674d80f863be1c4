-- ===== src/Pipeline/Cycle.antt =====
-- `findPipelineCycle`: depth-first search with an explicit stack. The top of the stack is the head
-- of its list, and the `while` loop runs on fuel.
pub mod Fuel
pub mod Found
pub mod Closed
pub mod Searched
pub mod Ranking
pub mod Tables
pub mod Counted
pub mod Agreement
mod Examples
use asterim.Prelude.{
  ℕ, zero, suc, ◌+◌, ◌-◌, String, Bool, true, false, ◌||◌, Option, none, some, List, [], ◌∷◌, ◌++◌,
  if◌then◌else◌, str_eq, get_or, get_elem?, length, is_some, any, Map, get, put,
}
use asterim.Pipeline.Graph.{PipelineStep}

pub data Mark : Type 0 where
  visiting finished : Mark

-- `byId.get(id)`: of two steps with one id the map keeps the last.
unfoldable pub by_id : String → List PipelineStep → Option PipelineStep
by_id id [] = none
by_id id (s ∷ ss) = elim (by_id id ss) [
  | some t ↦ some t
  | none ↦ if str_eq s.id id then some s else none
]

abbrev pub has_step : String → List PipelineStep → Bool
has_step id steps = is_some (by_id id steps)

abbrev pub depends_of : Option PipelineStep → List String
depends_of none = []
depends_of (some s) = s.depends_on

-- A step of the stack, and how many of its dependencies have been walked.
pub record Frame : Type 0 where
  pub id : String
  pub next : ℕ

abbrev pub frame_is : String → Frame → Bool
frame_is id f = str_eq f.id id

pub record Search : Type 0 where
  pub marks : Map Mark
  pub stack : List Frame

pub data Turn : Type 0 where
  going : Search → Turn
  closing : List String → Turn

-- The ids of the stack from its lowest frame of that id up.
abbrev pub opened : String → List Frame → List String
opened id [] = []
opened id (f ∷ below) =
    let rest = opened id below ++ f.id ∷ [] in if any (frame_is id) below then rest else f.id ∷ []

-- `stack.slice(opened)`: with no such frame the index is -1, and the slice is the top alone.
abbrev pub cycle_path : String → Frame → List Frame → List String
cycle_path id f below =
    if any (frame_is id) (f ∷ below) then opened id (f ∷ below) ++ id ∷ [] else f.id ∷ id ∷ []

-- What a known dependency of the step on top does, by its mark.
unfoldable pub walk_marked : Option Mark → String → Map Mark → Frame → List Frame → Turn
walk_marked (some visiting) id marks f below = closing (cycle_path id f below)
walk_marked (some finished) id marks f below = going (record { marks = marks; stack = f ∷ below })
walk_marked none id marks f below =
    going
      (record { marks = put id visiting marks; stack = record { id = id; next = 0 } ∷ f ∷ below })

abbrev pub walk_dependency : List PipelineStep → String → Map Mark → Frame → List Frame → Turn
walk_dependency steps id marks f below =
    if has_step id steps
    then walk_marked (get id marks) id marks f below
    else going (record { marks = marks; stack = f ∷ below })

-- One turn of the loop, with `f` on top.
unfoldable pub cycle_turn : List PipelineStep → Map Mark → Frame → List Frame → Turn
unfolding walk_marked
cycle_turn steps marks f below = elim (get_elem? (depends_of (by_id f.id steps)) f.next) [
  | none ↦ going (record { marks = put f.id finished marks; stack = below })
  | some id ↦ walk_dependency steps id marks (record f { next = suc f.next }) below
]

pub data Outcome : Type 0 where
  closed : Map Mark → Outcome
  cycle : List String → Outcome
  out_of_fuel : Outcome

unfoldable pub search_stack : ℕ → List PipelineStep → Map Mark → List Frame → Outcome
unfolding cycle_turn
search_stack n steps marks [] = closed marks
search_stack zero steps marks (f ∷ below) = out_of_fuel
search_stack (suc n) steps marks (f ∷ below) = elim (cycle_turn steps marks f below) [
  | closing path ↦ cycle path
  | going s ↦ search_stack n steps s.marks s.stack
]

abbrev pub is_finished : Option Mark → Bool
is_finished (some finished) = true
is_finished _ = false

abbrev pub root_frame : PipelineStep → Frame
root_frame root = record { id = root.id; next = 0 }

abbrev pub search_root : ℕ → List PipelineStep → PipelineStep → Map Mark → Outcome
search_root n steps root marks =
    if is_finished (get root.id marks)
    then closed marks
    else search_stack n steps (put root.id visiting marks) (root_frame root ∷ [])

unfoldable pub search_roots : ℕ → List PipelineStep → List PipelineStep → Map Mark → Outcome
unfolding search_stack
search_roots n steps [] marks = closed marks
search_roots n steps (root ∷ roots) marks = elim (search_root n steps root marks) [
  | closed marks' ↦ search_roots n steps roots marks'
  | cycle path ↦ cycle path
  | out_of_fuel ↦ out_of_fuel
]

-- Each turn of the loop pops a step or walks one dependency, and no step is pushed twice.
abbrev pub cycle_fuel : List PipelineStep → ℕ
cycle_fuel [] = 0
cycle_fuel (s ∷ ss) = suc (length s.depends_on) + cycle_fuel ss

abbrev pub path_of : Outcome → Option (List String)
path_of (cycle path) = some path
path_of _ = none

unfoldable pub find_pipeline_cycle : List PipelineStep → Option (List String)
unfolding search_roots by_id
find_pipeline_cycle steps = path_of (search_roots (cycle_fuel steps) steps steps [])
