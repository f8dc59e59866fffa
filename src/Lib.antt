-- ===== src/Lib.antt =====
-- NuMOO: the server of a programmable multi-user environment, a LambdaMOO with UTF-8 strings.
--
-- The server keeps a database of objects, each with attributes, properties, verbs, a place in a
-- hierarchy of parents and one in a hierarchy of locations, and runs programs over it that
-- compute with values: numbers, strings, lists, object numbers, errors. Programs call built-in
-- functions, which work on values and on the database. This library models the parts on which
-- the rest stands:
--
--   Utf       server/utf.c: the coder and decoder of UTF-8 (put_utf, get_utf, get_utf_call) and
--             what walks over texts (strlen_utf, skip_utf, clearance_utf). Utf/Form is the table
--             of forms they are compared with.
--   Strings   server/utils.c: comparison without regard to case, the hash, and the matching of
--             verb names (mystrcasecmp, mystrncasecmp, str_hash, verbcasecmp), and binary strings
--             (raw_bytes_to_binary, binary_to_raw_bytes).
--   Value     server/structures.h and equality of server/utils.c: MOO values.
--   Lists     server/list.c, the operations on list values, setadd to sublist, and those on
--             parts of strings, strrangeset, substr and strget (Lists/Texts).
--   Builtins  server/list.c, the built-in functions on lists, and OP_RANGE_REF of
--             server/execute.c: the checks before those operations, with positions that come as
--             64-bit numbers and go on as ints.
--   Db        server/db_objects.c with server/db_private.h and server/db.h: the table of objects
--             (Db/State), the linked lists of contents and of children (Db/Links), attributes,
--             flags and moves (Db/Objects). Db/Verbs is server/db_verbs.c: the verbs of an
--             object and the handles on them, the search up the ancestors for a verb that may be
--             called, and the cache of its results, which a change of verbs clears. Db/Properties
--             is the part of server/db_properties.c that finds a property and reads it.
--   Commands  server/parse_cmd.c, the prepositions of server/db_verbs.c and server/match.c: a
--             line is cut into words (Commands/Words), a preposition is sought among them
--             (Commands/Preps), and the strings around it are matched with the names of the
--             objects around the player (Commands/Match); parse_command (Commands/Parse) does
--             these in turn.
--   Tasks     server/tasks.c: the queues of tasks. Tasks/Input is the input of one queue, a chain
--             of tasks with a second chain through the ends of its sequences of in-band and
--             out-of-band tasks (dequeue_input_task, enqueue_input_task); Tasks/Tqueues the idle
--             and the active queues, by usage (find_tqueue, activate_tqueue, ensure_usage,
--             flush_input, new_input_task); Tasks/Waiting the forked and suspended tasks, by start
--             time (enqueue_waiting, resume_task); Tasks/Search the search of a task by its number
--             (kill_task, do_resume, find_suspended_task); Tasks/Calls the built-in functions over
--             these (bf_kill_task, bf_resume, bf_force_input, bf_flush_input); Tasks/Run the loop
--             that runs what is ready (run_ready_tasks), over a parameter for what a task does.
--   Numbers   server/numbers.c: integer arithmetic with its errors (do_add, do_divide, do_power),
--             conversion (become_integer, parse_number), min, max, abs and random.
--   Base      numbers, lists, options, integers and texts that the others share.
--   Tests     the theorems at concrete inputs.
--
-- Strings: a pointer into a buffer is the list of the bytes from there to its end, so a read
-- outside the buffer is a case of its own, `none`. List values are lists of their elements, from
-- 1 on, and a read at any other position is `none`. The table of objects is a function from
-- numbers to optional objects, and following a null pointer is `none`. So a theorem that says
-- an operation returns `some` result says too that it makes no such read.
--
-- Loops over strings and linked lists run on fuel, and the end of the fuel is `none` as well, or
-- `false` for the loop of verbcasecmp over the names of a pattern. A walk over a buffer has the
-- buffer's length, of which each round uses a byte; a walk along linked objects, or up the parents
-- of one, has one more than the number of objects, which no list without repetitions exceeds; the
-- loop over the words of a command has one more than the length of the command. Theorems in the list
-- below that give `some` result thus say that the loops end. What parse_into_words returns is a list
-- of words; `words_of` is the loop with its fuel, and parse_command has its result.
--
-- A conversion to int keeps the low 32 bits, unsigned arithmetic is taken mod 2 ^ 32, and plain
-- chars are signed. The comparison of floats is a parameter, and so are the C library's strtol,
-- isspace and isdigit, the state of a client that hands out bytes to get_utf_call, and, for the
-- matching of names, the function that reads a property of an object. Strings are values: the
-- shortcut that the comparisons take for one and the same pointer is left out.
--
-- A queue of tasks is written back at its address after a change, as the source changes it in
-- place. The loop that flushes input has fuel for its tasks and one call more; the loops of
-- run_ready_tasks have bounds that are arguments. Allocation is a parameter that gives an address,
-- which is no queue's where a theorem says so. The counts and lengths of queues are integers
-- without bound.
--
-- A number has 64 bits: a sum, a product or a power that overflows is taken mod 2 ^ 64, and the one
-- quotient that overflows is `none`. The loop over the bits of an exponent has 65 rounds of fuel.
-- Floats are bits, and the C library's operations on them, strtoimax and strtod are parameters.
--
-- Not modelled: adding, renaming and deleting properties, parents' changes and renumbering, the
-- database file, the parser, compiler and interpreter, the lists of tasks for programs, a queue's
-- change of player at login, the network. Reference counts and memory are left out, but where the
-- code asks for a count, it is an argument.
pub mod Base
pub mod Lists
pub mod Numbers
pub mod Strings
pub mod Tasks
pub mod Utf
pub mod Value
pub mod Builtins
pub mod Db
pub mod Commands
pub mod Tests
