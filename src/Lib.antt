-- ===== src/Lib.antt =====
-- A verification library for the byte-code runtime of ocamil, the C code in byterun/.
--
-- The runtime runs byte-code on a heap of tagged values. The interpreter (byterun/interp.c) keeps
-- its registers and a stack (byterun/stacks.c), allocates blocks, calls C functions, and asks for a
-- larger stack when a call has come near its end; exceptions of the runtime come from
-- byterun/fail.c. Two primitives are automata of their own, driven by tables that generators emit:
-- the lexer engine (byterun/lexing.c), which asks its caller for more input, and the parser engine
-- (byterun/parsing.c), which asks its caller for tokens, larger stacks and semantic actions. The
-- free list (byterun/freelist.c) hands out the blocks of the major heap, and structural comparison
-- (byterun/compare.c) walks two values with a stack of its own. Marshalling writes a value as bytes
-- (byterun/extern.c), each shared object once, and reads it back (byterun/intern.c). Hashing
-- (byterun/hash.c) looks at the first part of a value, by two budgets.
--
-- Machine models byterun/mlvalues.h: 32-bit words and tagging (Machine/Word), values, blocks and
-- the heap (Machine/Value). A block is known by its number, so that a collection changes nothing.
-- Interp models byterun/interp.c and byterun/instruct.h: Interp/State the registers; Interp/Access,
-- Calls, Closures, Blocks, Control and Arith one function for each instruction; Interp/Instr the
-- instructions; Interp/Exec the dispatch, a step and runs of steps. A program is the list of its
-- code words, and a code pointer an index into it. An instruction that reads or writes what is not
-- there is a fault, `none`. Stacks models byterun/stacks.c, the sizes only: the words are a list in
-- Interp/State, the top first. Tables models the macro Short; Lexing models lex_engine, Parsing and
-- Parsing/Engine parse_engine, a function for each label. Freelist and Freelist/Merge model
-- byterun/freelist.c on an explicit memory of links, sizes and colours; addresses count words.
-- Compare models one look at a pair of values, and Compare/Loop compare_val and the primitives.
-- Marshal models byterun/intext.h and the bytes of numbers; Marshal/Extern byterun/extern.c with
-- extern_rec split by the cases of its switch, Marshal/Intern byterun/intern.c, Marshal/Message the
-- whole messages. The writer uses its table of objects through an interface (Marshal/Seen), which
-- Marshal/Table fills with the open-addressing table of byterun/extern.c. What a
-- value stands for is a finite tree (Marshal/Tree): closures, custom blocks and pointers into the
-- middle of a block are written and read by the definitions, but stand for no tree. Doubles have
-- the byte order of CODE_DOUBLE_LITTLE. A read past the end of a message is a fault, where the
-- code reads on. Hash models byterun/hash.c, Hash/Spec the hash of a tree, and Hash/Copies
-- the heap that the reader leaves.
-- Prelude has what they share: native numbers, lists, integers, and the monad of faults.
--
-- Words have 32 bits (ARCH_SIXTYFOUR is not set), and arithmetic on them wraps around. Loops run on
-- fuel: lex_engine on a turn for each byte and two more for the end of the input, parse_engine on
-- 16 jumps between its labels, a search of the free list on the words of the list and one more
-- (each block counts with its header), realloc_stack on the maximal size and one more (the size
-- doubles), the buffer of the writer on the size that it must hold and one more (the size doubles, and
-- an overflow of the signed 32 bits is a fault). A run of the interpreter, and a comparison, the
-- writing or the reading of a value take the number of turns from the caller, as does hashing: values
-- may be cyclic, and forward pointers may form a cycle.
--
-- Parameters: what C functions and signal handlers do (Runtime), the comparison of doubles, the
-- operations of custom blocks (also Serializers, Deserializers), the checksum of the code, the
-- addresses of values outside the heap, and malloc (Outside). Not modelled: the garbage collector,
-- the want of memory in the writer (stat_alloc, and a heap that cannot grow), channels, the debugger
-- with its instructions EVENT and BREAK, backtraces and tracing, the dispatch by THREADED_CODE and
-- the operating system interface. The ML side of the lexer and parser engines is their caller and
-- not part of the library.
pub mod Prelude
pub mod Tables
pub mod Lexing
pub mod Machine
pub mod Stacks
pub mod Interp
pub mod Parsing
pub mod Freelist
pub mod Compare
pub mod Marshal
pub mod Hash
