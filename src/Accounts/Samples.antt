-- ===== src/Accounts/Samples.antt =====
-- Data for the tests of accounts: a hash that puts a character in front, a collation that compares
-- exactly.
use sealvo.Base.{true, false, none, some, [], ◌∷◌, replicate}
use sealvo.Session.{Session}
use sealvo.Session.Token.{Text, same_text}
use sealvo.Accounts.{User, Link, ResetToken, Store, Platform, role_user, pending}

abbrev pub plain : Platform
plain = record {
  hash_token = λ t. 1 ∷ t;
  bcrypt_hash = λ salt t. 2 ∷ t;
  bcrypt_compare = λ t stored. same_text (2 ∷ t) stored;
  collate = λ t. t;
  is_email = λ t. true;
  canonical_email = λ t. some t;
  lower = λ t. t;
  nfd = λ t. t;
}

abbrev pub bob_name : Text
bob_name = b'b' ∷ b'o' ∷ b'b' ∷ []

abbrev pub bob_mail : Text
bob_mail = b'b' ∷ b'@' ∷ b'x' ∷ []

abbrev pub new_mail : Text
new_mail = b'n' ∷ b'@' ∷ b'x' ∷ []

abbrev pub old_password : Text
old_password = b'o' ∷ b'l' ∷ b'd' ∷ []

abbrev pub next_password : Text
next_password = b'n' ∷ b'e' ∷ b'w' ∷ []

-- An account that was registered and never verified.
abbrev pub bob : User
bob = record {
  id = 7;
  username = bob_name;
  email = bob_mail;
  role = role_user;
  password = 2 ∷ old_password;
  created_at = 0;
  is_verified = false;
  ava = 1;
}

abbrev pub bob_reset : ResetToken
bob_reset = record { token_hash = 1 ∷ 9 ∷ []; user_id = 7; expires_at = 5_000 }

abbrev pub bob_link : Link
bob_link = record {
  id = 3 ∷ [];
  user_id = 7;
  token_hash = 1 ∷ 8 ∷ [];
  expires_at = 5_000;
  status = pending;
  created_at = 0;
  used_at = none;
  new_email = some new_mail;
}

abbrev pub bob_session : Session
bob_session = record {
  id = replicate 36 b'a';
  user_id = 7;
  token_hash = 1 ∷ replicate 64 b'b';
  previous_hash = none;
  rotated_at = none;
  expires_at = 604_800_000;
  created_at = 0;
}

abbrev pub store : Store
store = record {
  users = bob ∷ [];
  links = bob_link ∷ [];
  resets = bob_reset ∷ [];
  sessions = bob_session ∷ [];
  journal = [];
  mails = [];
  dashboards = [];
}

abbrev pub reset_token : Text
reset_token = 9 ∷ []

abbrev pub link_token : Text
link_token = 8 ∷ []

abbrev pub unchanged : Store → Store
unchanged s = s
