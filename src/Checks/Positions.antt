-- ===== src/Checks/Positions.antt =====
-- packages/checks/src/checks.ts: the positions in a trace that the matchers of a check find.
pub mod Found
use Prim.Native.String.{◌++◌ as ◌<>◌}
use lisptc.Prelude.{
  ℕ, zero, suc, ◌+◌, String, Bool, true, false, not, Option, none, some, List, [], ◌∷◌, ◌++◌, map,
  any, all, filter, get_elem?, leb, ltb, ◌==◌, ◌===◌, ◌||◌, ◌&&◌, if◌then◌else◌,
}
use lisptc.Value.{Value}
use lisptc.Checks.{
  Datum, CallArgs, TraceEvent, reply, form, tool, connect, note, halt, critical, warning, step_in,
  Trace, no_args, calls_within, awaits_within, event_args, test_value, matches_args, split_args,
}

-- the indices, from `i` on, of the events that pass
unfoldable pub positions_from : ℕ → (ℕ → TraceEvent → Bool) → List TraceEvent → List ℕ
positions_from i keep [] = []
positions_from i keep (event ∷ rest) =
    let later = positions_from (suc i) keep rest in if keep i event then i ∷ later else later

unfoldable pub positions : (TraceEvent → Bool) → List TraceEvent → List ℕ
positions keep events = positions_from 0 (λ _ event. keep event) events

abbrev pub step_or_zero : Option TraceEvent → ℕ
step_or_zero none = 0
step_or_zero (some event) = step_in event

unfoldable pub step_of : List TraceEvent → ℕ → ℕ
step_of events index = step_or_zero (get_elem? events index)

abbrev pub mem : ℕ → List ℕ → Bool
mem n ns = any (λ m. m == n) ns

-- `new Set`, as a list without repeats in the order of the first ones
unfoldable pub distinct_from : List ℕ → List ℕ → List ℕ
distinct_from seen [] = []
distinct_from seen (n ∷ ns) =
    if mem n seen then distinct_from seen ns else n ∷ distinct_from (n ∷ seen) ns

unfoldable pub insert : ℕ → List ℕ → List ℕ
insert n [] = n ∷ []
insert n (m ∷ ms) = if leb n m then n ∷ m ∷ ms else m ∷ insert n ms

-- `sort((a, b) => a - b)`
unfoldable pub sort : List ℕ → List ℕ
sort [] = []
sort (n ∷ ns) = insert n (sort ns)

unfoldable pub steps : List TraceEvent → List ℕ
steps events = distinct_from [] (filter (λ step. ltb 0 step) (map step_in events))

abbrev pub is_tool_of : (String → Bool) → TraceEvent → Bool
is_tool_of keep (tool _ server _ _ _) = keep server
is_tool_of keep _ = false

unfoldable pub called_server : String → List TraceEvent → List ℕ
called_server name events = positions (is_tool_of (λ server. server === name)) events

unfoldable pub called_server_other_than : String → List TraceEvent → List ℕ
called_server_other_than name events =
    positions (is_tool_of (λ server. not (server === name))) events

abbrev pub is_halt : TraceEvent → Bool
is_halt (halt _ _) = true
is_halt _ = false

unfoldable pub halted : List TraceEvent → List ℕ
halted events = positions is_halt events

abbrev pub is_error : TraceEvent → Bool
is_error (form _ _ _ (some _)) = true
is_error (note _ critical _) = true
is_error _ = false

unfoldable pub errored : List TraceEvent → List ℕ
errored events = positions is_error events

abbrev pub is_warning : TraceEvent → Bool
is_warning (note _ warning _) = true
is_warning _ = false

unfoldable pub skipped : List TraceEvent → List ℕ
skipped events = positions is_warning events

abbrev pub awaits_in : String → Option Value → Bool
awaits_in name none = false
awaits_in name (some source) = awaits_within source name

abbrev pub form_awaits : Trace → String → ℕ → TraceEvent → Bool
form_awaits trace name index (form _ _ _ _) = awaits_in name (trace.sources index)
form_awaits trace name index _ = false

unfoldable pub awaited : Trace → String → List ℕ
awaited trace name = positions_from 0 (form_awaits trace name) trace.events

unfoldable pub without : List ℕ → List ℕ → List ℕ
without a b = filter (λ i. not (mem i b)) a

module _ (shown : Datum → String) (regex_test : String → String → Bool) where
  abbrev pub answers : List Datum → TraceEvent → Bool
  answers wanted (halt _ answer) =
      all (λ want. test_value shown regex_test (Datum.lisp (Value.text answer)) want) wanted
  answers wanted _ = false

  unfoldable pub answered : List Datum → List TraceEvent → List ℕ
  answered wanted events = positions (answers wanted) events

  -- the event is a run of `name` with fitting arguments
  abbrev pub ran : String → CallArgs → TraceEvent → Bool
  ran name spec (tool step server called args ok) =
      (server <> "/" <> called) === name
      && matches_args shown regex_test (event_args (tool step server called args ok)) spec
  ran name spec (connect step server ok) =
      name === "load-mcp"
      && matches_args shown regex_test (event_args (connect step server ok)) spec
  ran name spec _ = false

  abbrev pub calls_in : String → Option Value → List CallArgs
  calls_in name none = []
  calls_in name (some source) = calls_within source name

  -- the event is a form that writes such a call
  abbrev pub wrote : Trace → String → CallArgs → ℕ → TraceEvent → Bool
  wrote trace name spec index (form _ _ _ _) =
      any (λ actual. matches_args shown regex_test actual spec)
        (calls_in name (trace.sources index))
  wrote trace name spec index _ = false

  -- a written call counts where none of its step has run
  unfoldable pub hits : Trace → String → CallArgs → List ℕ
  hits trace name spec =
      let done = positions (ran name spec) trace.events in
      let written = positions_from 0 (wrote trace name spec) trace.events in
      let dispatched = map (step_of trace.events) done in
      sort (done ++ filter (λ index. not (mem (step_of trace.events index) dispatched)) written)

  unfoldable pub called : Trace → List Datum → List ℕ
  called trace args = let parts = split_args shown args in hits trace parts.0 parts.1

  unfoldable pub hits_of_all : Trace → List String → List ℕ
  hits_of_all trace [] = []
  hits_of_all trace (name ∷ names) = hits trace name no_args ++ hits_of_all trace names

  unfoldable pub called_any : Trace → List String → List ℕ
  called_any trace names = sort (distinct_from [] (hits_of_all trace names))
