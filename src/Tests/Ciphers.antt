-- ===== src/Tests/Ciphers.antt =====
-- Ciphers that commute, a client and a server with them, and a few inputs, and
-- what stands for the floating point formulas.
use open_mined_psi.Base.{
  ℕ, zero, suc, ◌+◌, ◌*◌, ◌/◌, some, refl, ap, true, ◌==◌, leb, Bytes, List, [], ◌∷◌, arith,
}
use open_mined_psi.Base.Integer.{ℤ, pos, negsuc}
use open_mined_psi.Status.{Result, ok, err, foreign}
use open_mined_psi.Containers.Raw.Found.{IsDistinct}
use open_mined_psi.Containers.Doubles.{Doubles}
use open_mined_psi.Protocol.{raw, ServerSetup, Request, ServerResponse, Cipher}
use open_mined_psi.Protocol.Client.{PsiClient}
use open_mined_psi.Protocol.Server.{PsiServer}
use open_mined_psi.Protocol.Agreement.{Commutes}

abbrev pub one : Bytes
one = 1 ∷ []

abbrev pub both : List Bytes
both = one ∷ (5 ∷ []) ∷ []

pub both-IsDistinct : IsDistinct both
both-IsDistinct zero zero h k e = refl
both-IsDistinct zero (suc zero) h k e = absurd (cc e)
both-IsDistinct (suc zero) zero h k e = absurd (cc e)
both-IsDistinct (suc zero) (suc zero) h k e = refl
both-IsDistinct (suc (suc i)) j h k e = absurd (omega arith)
both-IsDistinct i (suc (suc j)) h k e = absurd (omega arith)

-- The server's key is a 2 in front of an element and the client's another byte before that.
abbrev pub sealed : Bytes → Bytes
sealed x = 2 ∷ x

abbrev pub add_key : ℕ → Bytes → Result Bytes
add_key k x = ok (k ∷ x)

abbrev pub under_first : Bytes → Result Bytes
under_first [] = err (foreign 0)
under_first (k ∷ x) = ok (k ∷ 2 ∷ x)

abbrev pub drop_key : Bytes → Result Bytes
drop_key [] = err (foreign 0)
drop_key (k ∷ x) = ok x

abbrev pub client_cipher : Cipher
client_cipher = record {
  encrypt = add_key 1;
  re_encrypt = under_first;
  decrypt = drop_key;
  private_key = one;
}

abbrev pub server_cipher : Cipher
server_cipher = record {
  encrypt = add_key 2;
  re_encrypt = under_first;
  decrypt = drop_key;
  private_key = 2 ∷ [];
}

abbrev pub tail_of : Bytes → Bytes
tail_of [] = []
tail_of (k ∷ x) = x

abbrev pub commutes : Commutes client_cipher server_cipher
commutes = record {
  once = λ x. 1 ∷ x;
  twice = λ x. 1 ∷ 2 ∷ x;
  under_server = sealed;
  client_encrypts = λ x. refl;
  server_encrypts = λ x. refl;
  server_re_encrypts = λ x. refl;
  client_decrypts = λ x. refl;
  injective = λ x y e. ap tail_of e;
}

abbrev pub client : PsiClient
client = record { ec_cipher = client_cipher; reveal_intersection = true }

abbrev pub server : PsiServer
server = record { ec_cipher = server_cipher; reveal_intersection = true }

abbrev pub stored : List Bytes
stored = (2 ∷ 5 ∷ []) ∷ []

abbrev pub digest : Bytes → ℕ
digest [] = 5
digest (x ∷ xs) = x + 3 * digest xs

abbrev pub setup : ServerSetup
setup = record { setup_initialized = true; data_structure = raw stored }

-- Percentages for `double`: with clients there is a rate, with none it is no rate inside the unit interval.
abbrev pub rate_for : ℕ → ℤ → ℕ
rate_for x (pos zero) = 100
rate_for x (pos (suc zero)) = x
rate_for x (pos (suc (suc n))) = x / suc (suc n)
rate_for x (negsuc n) = 0

abbrev pub doubles : Doubles
doubles = record {
  Double = ℕ;
  divide = rate_for;
  le_zero = λ x. x == 0;
  ge_one = λ x. leb 100 x;
  hash_functions = λ x. 3;
  filter_bytes = λ x n. n + 1;
  range_of = λ n x. some (n * 100);
  estimate_div = λ last size. some 4;
}

abbrev pub request : Request
request = record {
  request_initialized = true;
  request_reveal = true;
  request_elements = (1 ∷ 1 ∷ []) ∷ (1 ∷ 5 ∷ []) ∷ [];
}

abbrev pub response : ServerResponse
response = record {
  response_initialized = true;
  response_elements = (1 ∷ 2 ∷ 1 ∷ []) ∷ (1 ∷ 2 ∷ 5 ∷ []) ∷ [];
}
