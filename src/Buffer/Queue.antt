-- ===== src/Buffer/Queue.antt =====
-- The specification of a Buffer: a queue of bytes. A sequence of calls on the buffer answers and
-- leaves what it answers and leaves on the queue.
use kama_webserver.Prelude.{
  ℕ, ◌+◌, ◌≤◌, ◌≡◌, refl, ap, ◌∙◌, List, [], ◌∷◌, ◌++◌, length, take, drop, arith,
}
use kama_webserver.Buffer.{
  Buffer, readable_bytes, retrieve, retrieve_as_string, retrieve_all_as_string,
  ensure_writable_bytes, put, append,
}
use kama_webserver.Buffer.Bounds.{IsValid, max_size, make_space_lem}
use kama_webserver.Buffer.Contents.{
  contents, append_lem, retrieve_as_string_lem, retrieve_all_as_string_lem, length-contents,
}

pub data Call : Type 0 where
  appends : List ℕ → Call
  takes : ℕ → Call
  takes_all : Call

-- What the calls return, and the buffer behind them.
pub run : Buffer → List Call → List (List ℕ) × Buffer
run b [] = ([], b)
run b (appends bytes ∷ cs) = run (append b bytes) cs
run b (takes n ∷ cs) =
    let (out, b') = retrieve_as_string b n in let (outs, b'') = run b' cs in (out ∷ outs, b'')
run b (takes_all ∷ cs) =
    let (out, b') = retrieve_all_as_string b in let (outs, b'') = run b' cs in (out ∷ outs, b'')

-- The same calls on the queue.
pub run_queue : List ℕ → List Call → List (List ℕ) × List ℕ
run_queue q [] = ([], q)
run_queue q (appends bytes ∷ cs) = run_queue (q ++ bytes) cs
run_queue q (takes n ∷ cs) = let (outs, q') = run_queue (drop n q) cs in (take n q ∷ outs, q')
run_queue q (takes_all ∷ cs) = let (outs, q') = run_queue [] cs in (q ∷ outs, q')

-- A caller takes no more than is readable.
abbrev pub Allowed : List ℕ → List Call → Type 0
Allowed q [] = Unit {0}
Allowed q (appends bytes ∷ cs) = Allowed (q ++ bytes) cs
Allowed q (takes n ∷ cs) = (n ≤ length q) × Allowed (drop n q) cs
Allowed q (takes_all ∷ cs) = Allowed [] cs

abbrev pub appended : List Call → ℕ
appended [] = 0
appended (appends bytes ∷ cs) = length bytes + appended cs
appended (takes n ∷ cs) = appended cs
appended (takes_all ∷ cs) = appended cs

pub append-writer-le :
    {b : Buffer} (bytes : List ℕ)
    → IsValid b
    → b.writer_index + length bytes ≤ max_size
    → (append b bytes).writer_index ≤ b.writer_index + length bytes
unfolding append put ensure_writable_bytes
append-writer-le {b} bytes v fits = ground (arith, make_space_lem (length bytes) v fits)

pub retrieve-writer-le :
    {b : Buffer} (n : ℕ) → IsValid b → (retrieve b n).writer_index ≤ b.writer_index
unfolding retrieve
retrieve-writer-le n v = ground arith

retrieve_as_string-writer-le :
    {b : Buffer} (n : ℕ) → IsValid b → (retrieve_as_string b n).1.writer_index ≤ b.writer_index
unfolding retrieve_as_string
retrieve_as_string-writer-le n v = retrieve-writer-le n v

retrieve_all_as_string-writer-le :
    {b : Buffer} → IsValid b → (retrieve_all_as_string b).1.writer_index ≤ b.writer_index
unfolding retrieve_all_as_string
retrieve_all_as_string-writer-le {b} v = retrieve_as_string-writer-le (readable_bytes b) v

-- Any allowed sequence of calls returns on the buffer what it returns on the queue of its bytes,
-- and leaves the buffer holding the queue that is left, as long as the array can grow enough.
pub run_refines :
    (cs : List Call) {b : Buffer}
    → IsValid b
    → b.writer_index + appended cs ≤ max_size
    → Allowed (contents b) cs
    → ((run b cs).0, contents (run b cs).1) ≡ run_queue (contents b) cs
unfolding run run_queue
run_refines [] v fits ok = refl
run_refines (appends bytes ∷ cs) {b} v fits ok =
    let (c, v') = append_lem bytes v (omega arith) in
    rw (← c) (run_refines cs v' (omega (arith, append-writer-le bytes v (omega arith))) (rw c ok))
run_refines (takes n ∷ cs) {b} v fits ok =
    let (out, left, v') = retrieve_as_string_lem n v (omega (arith, ok.0, length-contents v)) in
    let ih = run_refines cs v' (omega (arith, retrieve_as_string-writer-le n v)) (rw left ok.1) in
    let whole = ih ∙ ap (λ q. run_queue q cs) left in λ i. (out i ∷ (whole i).0, (whole i).1)
run_refines (takes_all ∷ cs) {b} v fits ok =
    let (out, left, v') = retrieve_all_as_string_lem v in
    let ih = run_refines cs v' (omega (arith, retrieve_all_as_string-writer-le v)) (rw left ok) in
    let whole = ih ∙ ap (λ q. run_queue q cs) left in λ i. (out i ∷ (whole i).0, (whole i).1)
