-- ===== src/EchoServer.antt =====
-- src/main.cc: the server that the program runs, whose message callback answers every chunk of bytes
-- with the same HTTP response, and the output function of its log.
pub mod Serving
mod Tests
use mathlib.Core.Option
use Prim.Native.Char.{code}
use Prim.Native.String.{String}
use kama_webserver.Prelude.{
  ℕ, zero, suc, ◌+◌, ◌/◌, ◌%◌, Option, none, some, List, [], ◌∷◌, ◌++◌, length, ltb, if◌then◌else◌,
}
use kama_webserver.Buffer
use kama_webserver.Buffer.{Written}
use kama_webserver.Connection.{TcpConnection}
use kama_webserver.Connection.Output.{send}
use kama_webserver.Log.AsyncLogging
use kama_webserver.Log.AsyncLogging.{AsyncLogging}

-- `SetThreadNum(16)`.
abbrev pub thread_num : ℕ
thread_num = 16

abbrev pub codes : String → List ℕ
codes String.[] = []
codes (String.◌∷◌ c s) = code c ∷ codes s

-- `std::to_string`, on at most `fuel` digits.
pub to_decimal : ℕ → ℕ → List ℕ
to_decimal zero n = []
to_decimal (suc fuel) n =
    let front = to_decimal fuel (n / 10) in
    if ltb n 10 then (b'0' + n) ∷ [] else front ++ (b'0' + n % 10) ∷ []

abbrev pub crlf : List ℕ
crlf = 13 ∷ 10 ∷ []

pub http_response : List ℕ → List ℕ
unfolding to_decimal
http_response body =
    codes "HTTP/1.1 200 OK"
    ++ (crlf
        ++ (codes "Content-Length: "
            ++ (to_decimal 20 (length body)
                ++ (crlf ++ (codes "Connection: keep-alive" ++ (crlf ++ (crlf ++ body)))))))

pub response : List ℕ
unfolding http_response
response = http_response (codes "Hello Muduo!")

-- `onMessage`, behind the `k`-th read; `write k` answers the write of its `send`.
pub on_message : (ℕ → List ℕ → Written) → ℕ → TcpConnection → TcpConnection
on_message write k c =
    let (msg, b) = Buffer.retrieve_all_as_string c.input_buffer in
    send (write k) response (record c { input_buffer = b })

-- `asyncLog`, the output function of Logger: `g_asyncLog` may be null. `none` is a fault of `append`.
pub async_log : List ℕ → Option AsyncLogging → Option (Option AsyncLogging)
async_log msg none = some none
async_log msg (some logging) = Option.map (λ after. some after) (AsyncLogging.append logging msg)
