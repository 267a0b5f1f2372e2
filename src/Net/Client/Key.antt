-- ===== src/Net/Client/Key.antt =====
-- The names of members, methods and extensions in Client.cpp, as text.
use rxs_supported.Common.{ℕ, List, [], ◌∷◌}

abbrev pub id : List ℕ
id = b'i' ∷ b'd' ∷ []

abbrev pub job_id : List ℕ
job_id = b'j' ∷ b'o' ∷ b'b' ∷ b'_' ∷ b'i' ∷ b'd' ∷ []

abbrev pub nonce : List ℕ
nonce = b'n' ∷ b'o' ∷ b'n' ∷ b'c' ∷ b'e' ∷ []

abbrev pub result : List ℕ
result = b'r' ∷ b'e' ∷ b's' ∷ b'u' ∷ b'l' ∷ b't' ∷ []

abbrev pub sig : List ℕ
sig = b's' ∷ b'i' ∷ b'g' ∷ []

abbrev pub commitment : List ℕ
commitment = b'c' ∷ b'o' ∷ b'm' ∷ b'm' ∷ b'i' ∷ b't' ∷ b'm' ∷ b'e' ∷ b'n' ∷ b't' ∷ []

abbrev pub algo : List ℕ
algo = b'a' ∷ b'l' ∷ b'g' ∷ b'o' ∷ []

abbrev pub nicehash : List ℕ
nicehash = b'n' ∷ b'i' ∷ b'c' ∷ b'e' ∷ b'h' ∷ b'a' ∷ b's' ∷ b'h' ∷ []

abbrev pub connect : List ℕ
connect = b'c' ∷ b'o' ∷ b'n' ∷ b'n' ∷ b'e' ∷ b'c' ∷ b't' ∷ []

abbrev pub keepalive : List ℕ
keepalive = b'k' ∷ b'e' ∷ b'e' ∷ b'p' ∷ b'a' ∷ b'l' ∷ b'i' ∷ b'v' ∷ b'e' ∷ []

abbrev pub extensions : List ℕ
extensions = b'e' ∷ b'x' ∷ b't' ∷ b'e' ∷ b'n' ∷ b's' ∷ b'i' ∷ b'o' ∷ b'n' ∷ b's' ∷ []

abbrev pub job : List ℕ
job = b'j' ∷ b'o' ∷ b'b' ∷ []

abbrev pub blob : List ℕ
blob = b'b' ∷ b'l' ∷ b'o' ∷ b'b' ∷ []

abbrev pub target : List ℕ
target = b't' ∷ b'a' ∷ b'r' ∷ b'g' ∷ b'e' ∷ b't' ∷ []

abbrev pub height : List ℕ
height = b'h' ∷ b'e' ∷ b'i' ∷ b'g' ∷ b'h' ∷ b't' ∷ []

abbrev pub seed_hash : List ℕ
seed_hash = b's' ∷ b'e' ∷ b'e' ∷ b'd' ∷ b'_' ∷ b'h' ∷ b'a' ∷ b's' ∷ b'h' ∷ []

abbrev pub sig_key : List ℕ
sig_key = b's' ∷ b'i' ∷ b'g' ∷ b'_' ∷ b'k' ∷ b'e' ∷ b'y' ∷ []

abbrev pub extra_nonce : List ℕ
extra_nonce = b'e' ∷ b'x' ∷ b't' ∷ b'r' ∷ b'a' ∷ b'_' ∷ b'n' ∷ b'o' ∷ b'n' ∷ b'c' ∷ b'e' ∷ []

abbrev pub pool_wallet : List ℕ
pool_wallet = b'p' ∷ b'o' ∷ b'o' ∷ b'l' ∷ b'_' ∷ b'w' ∷ b'a' ∷ b'l' ∷ b'l' ∷ b'e' ∷ b't' ∷ []

abbrev pub error : List ℕ
error = b'e' ∷ b'r' ∷ b'r' ∷ b'o' ∷ b'r' ∷ []

abbrev pub method : List ℕ
method = b'm' ∷ b'e' ∷ b't' ∷ b'h' ∷ b'o' ∷ b'd' ∷ []

abbrev pub params : List ℕ
params = b'p' ∷ b'a' ∷ b'r' ∷ b'a' ∷ b'm' ∷ b's' ∷ []

abbrev pub jsonrpc : List ℕ
jsonrpc = b'j' ∷ b's' ∷ b'o' ∷ b'n' ∷ b'r' ∷ b'p' ∷ b'c' ∷ []

abbrev pub login : List ℕ
login = b'l' ∷ b'o' ∷ b'g' ∷ b'i' ∷ b'n' ∷ []

abbrev pub pass : List ℕ
pass = b'p' ∷ b'a' ∷ b's' ∷ b's' ∷ []

abbrev pub agent : List ℕ
agent = b'a' ∷ b'g' ∷ b'e' ∷ b'n' ∷ b't' ∷ []

abbrev pub rigid : List ℕ
rigid = b'r' ∷ b'i' ∷ b'g' ∷ b'i' ∷ b'd' ∷ []

abbrev pub submit : List ℕ
submit = b's' ∷ b'u' ∷ b'b' ∷ b'm' ∷ b'i' ∷ b't' ∷ []

abbrev pub message : List ℕ
message = b'm' ∷ b'e' ∷ b's' ∷ b's' ∷ b'a' ∷ b'g' ∷ b'e' ∷ []

-- `client.reconnect`.
abbrev pub client_reconnect : List ℕ
client_reconnect =
    b'c' ∷ b'l' ∷ b'i' ∷ b'e' ∷ b'n' ∷ b't' ∷ b'.' ∷ b'r' ∷ b'e' ∷ b'c' ∷ b'o' ∷ b'n' ∷ b'n' ∷ b'e'
    ∷ b'c' ∷ b't' ∷ []

-- `2.0`.
abbrev pub two_zero : List ℕ
two_zero = b'2' ∷ b'.' ∷ b'0' ∷ []

abbrev pub unauthenticated : List ℕ
unauthenticated =
    b'u' ∷ b'n' ∷ b'a' ∷ b'u' ∷ b't' ∷ b'h' ∷ b'e' ∷ b'n' ∷ b't' ∷ b'i' ∷ b'c' ∷ b'a' ∷ b't' ∷ b'e'
    ∷ b'd' ∷ []

abbrev pub banned : List ℕ
banned =
    b'y' ∷ b'o' ∷ b'u' ∷ b'r' ∷ b' ' ∷ b'i' ∷ b'p' ∷ b' ' ∷ b'i' ∷ b's' ∷ b' ' ∷ b'b' ∷ b'a' ∷ b'n'
    ∷ b'n' ∷ b'e' ∷ b'd' ∷ []

abbrev pub currently_banned : List ℕ
currently_banned =
    b'i' ∷ b'p' ∷ b' ' ∷ b'a' ∷ b'd' ∷ b'd' ∷ b'r' ∷ b'e' ∷ b's' ∷ b's' ∷ b' ' ∷ b'c' ∷ b'u' ∷ b'r'
    ∷ b'r' ∷ b'e' ∷ b'n' ∷ b't' ∷ b'l' ∷ b'y' ∷ b' ' ∷ b'b' ∷ b'a' ∷ b'n' ∷ b'n' ∷ b'e' ∷ b'd' ∷ []

abbrev pub invalid_job : List ℕ
invalid_job =
    b'i' ∷ b'n' ∷ b'v' ∷ b'a' ∷ b'l' ∷ b'i' ∷ b'd' ∷ b' ' ∷ b'j' ∷ b'o' ∷ b'b' ∷ b' ' ∷ b'i' ∷ b'd'
    ∷ []
