-- ===== src/Lib.antt =====
-- lisptc: a Lisp interpreter that is the deterministic side of an AI agent. A model writes Lisp
-- forms, a REPL evaluates them, and what the forms print is the model's next input. Extensions add
-- the surfaces past the core language: permissions, checks of a run, budgets of threads, the panes
-- of the screen. This library models the parts below and proves what makes them correct.
--
-- Files and the code they stand for (paths from the repository's root):
--
--   Value              packages/interpreter/src/objects.ts: symbols, keywords, cells, numbers.
--                      A symbol is interned in the program and is its name here; null is both the
--                      empty list and false.
--   Value/Json         the conversions of the same file: exactJsonToLisp, jsonToLisp, lispToJson,
--                      isPlist, isAlist, writesAsArray, objectOf.
--   Quasiquote         packages/interpreter/src/quasiquote.ts: qqExpand and its helpers. The
--                      compiler calls qqExpand on a template and evaluates what it gives.
--                      Quasiquote/Meaning says, without the expansion, what filling the holes of
--                      a template gives.
--   Reader             packages/interpreter/src/reader.ts: Reader.read with parseExpression,
--                      parseListBody and readToken; and packages/interpreter/src/print.ts: str,
--                      strCell and strListBody. Both work on tokens, each of which stands for the
--                      value that it is read as; the tokens that the text of an atom is cut into
--                      are a parameter of str. Reader/Texts has the quoting of texts, Reader/Strings the string
--                      token of packages/shared/src/lisp-tokens.ts.
--   Compile            packages/interpreter/src/compile.ts: makeArgTable, and scanForArgs and
--                      scanForQQ, which put the place of a parameter for its name; and what such a
--                      place reads, Arg.getValue of func.ts. Compile/Scopes says without the scans
--                      what a name means, Compile/Scoped which places a form may name.
--   Frames             packages/interpreter/src/func.ts: the frame of a call, made from its
--                      arguments (makeFrame, keyedFrame).
--   Interp             packages/interpreter/src/lisp.ts: the state of an interpreter (globals, seals,
--                      functions, the frames of calls) and what can end an evaluation. Interp/Parts
--                      has evalNow and what else does not call the evaluator, Interp/Forms
--                      evalSpecial, evalApplication and evalGen, and Interp/Expand the rest of
--                      compile.ts (compileFunc, expandMacros, compileInners) and Macro.expandWith.
--                      Interp/Rel has one induction on the evaluator, for any relation between runs
--                      that the steps keep; Runs and Later use it. Interp/Slots and Calls are
--                      about the frames of calls and the variables in them. Interp/TopLevel is evalTopLevel and
--                      runGen, on the forms that are read.
--   Plist              packages/interpreter/src/plist.ts: keyword lists, read and split.
--   Permissions        packages/permissions/src/ports.ts: verdicts and accesses. Permissions/Rules,
--                      Glob and Parse are rules.ts (decide, named, server, parseRules), Session is
--                      SessionRules of permissions.ts, Approvals is MemoryApprovals of
--                      approvals.ts, and Guard is the guard that stands before every call of an
--                      agent: it asks the session's rules, then the approvals, and opens a request
--                      where neither lets the call pass.
--   Checks             packages/checks/src/checks.ts and trace.ts: events and the tests of
--                      arguments. Checks/Positions finds calls in a trace (hits and the other
--                      matchers), Checks/Judge has the combinators, Checks/Latch the evaluation
--                      once a step and the latching of settled verdicts.
--   Channels           packages/interpreter/src/channels.ts: what is emitted on a topic, and the listeners and
--                      transports that it reaches.
--   Compaction         packages/compaction/src/compaction.ts: the words of a text, its slices (sliceWords),
--                      what the marker of a slice says to do next (echoMarker) and the word a match
--                      stands in (wordIndexAt).
--   Budget             packages/ai/src/budget.ts: open, slice, remaining, charge.
--   Mailbox            packages/ai/src/mailbox.ts: the envelopes that wait for each thread.
--   Recovery           packages/interpreter/src/recovery.ts: the kinds of values that a saved session
--                      keeps, and what runs before a save and after a restore.
--   Hooks              packages/interpreter/src/hooks.ts: chains of middlewares.
--   Intent             packages/intent/src/intent.ts: what an agent shows of its work; Intent/Codecs
--                      has the codecs of its states, Intent/Turns the forms, the hooks of a session
--                      and the states they reach. The records are those of
--                      packages/journal-catalog/src/intent.ts.
--   SplitLayout        packages/shared/src/split-layout.ts: the tree of panes. Pruning has settle,
--                      prune, withTab and withoutTab; Placing has splitAt, focusTab and openTab;
--                      Moving has closeTab, closePane, moveTab, dropTab and replaceTab; Shape has
--                      joinPane, flip and resizeSplit; Flat has flatten and unflatten, whose walk has
--                      fuel of one more than the nodes, with a proof in Flat/Fuel that more changes
--                      nothing. PanelLayout is panel-layout.ts beside it, the
--                      operations that a program asks for on its panels.
--   Prelude            what these share: tests on numbers and texts, lists, a JavaScript Map as a
--                      list of entries (Dict), integers (Int), and code that throws (Fallible,
--                      Result). Each component's Tests module has runs and instances.
--
-- State is passed on: an operation takes the state and gives the next one, and a throw is an error
-- value. A class is a record of its fields. A JavaScript number is an integer or the bits of a
-- double in Value, and a natural number or an integer where the code counts; a size of a split is a
-- fraction, since the code divides 100 by a number of children. A time of Intent is a count of ticks,
-- and its codec takes how many there are in a millisecond.
--
-- Fuel: reading a value has twice as many steps as there are tokens, which is enough since each call
-- that takes no token is followed by one that does; nextId looks for a free id on fuel of one more
-- than the ids to avoid, which is enough since the ids it tries all differ; the walk up the parents
-- of a budget has one more than the accounts, which is enough since it never visits one twice. The
-- binary search of wordIndexAt has as many steps as there are words, and its theorem shows that this is
-- enough. An evaluation need not end, so evalGen and the compiler have fuel that the caller gives, and running
-- out of it is no result of the program. All other loops are structural recursion.
--
-- The evaluator's state is explicit: a function is an object and a call's frame a list of values, each
-- found by its number, and an environment is the numbers of its frames. Cells are not changed in
-- place, so a copy of a list is the list. What a builtin does, the hooks before a call and the value
-- that an error of a call carries are parameters; apply and the body of a loop, which go back to the
-- evaluator, are not.
--
-- What is not code of the repository is a parameter: String(x) and RegExp.test in Checks, the ids
-- and the clock of a permission request, the listeners of a decision, the evaluator of an expanded
-- template, the matches of a pattern. A listener of a
-- channel is a parameter too. RegExp.test on the patterns that glob builds is modelled, since the
-- code builds them.
--
-- Not modelled: the cutting of a text into tokens other than strings, and numbers and symbols in it; the builtins of
-- the core; promises and the session server; the forms that the other extensions register; what
-- reads or writes files, calls a service or draws. Of the parts above: readForms, with and without
-- of rules.ts, which go through the text of a configuration; the importing of files, docs, sources
-- and copies of an interpreter in lisp.ts, and the promises that a builtin gives; the redaction of trace.ts; the running of the source of
-- the checks; in print.ts the cut of a cycle.
pub mod Budget
pub mod Channels
pub mod Checks
pub mod Compaction
pub mod Compile
pub mod Frames
pub mod Hooks
pub mod Intent
pub mod Interp
pub mod Mailbox
pub mod PanelLayout
pub mod Permissions
pub mod Plist
pub mod Prelude
pub mod Quasiquote
pub mod Reader
pub mod Recovery
pub mod SplitLayout
pub mod Value
