-- ===== src/Tests/Phones.antt =====
-- The theorems on contacts, at a device with one contact that is cached.
use zev_bot.Prelude.{
  ne_text, ◌≡◌, refl, sym, ap, none, some, List, [], ◌∷◌, true, false, arith, string_discrete,
  value_or, str_eq, ◌∙◌, ite, ◌==◌, if◌then◌else◌,
}
use zev_bot.Table.{lookup}
use zev_bot.Sql.{Conn, Faults, sql_txn}
use zev_bot.Sql.Post.{Post}
use zev_bot.Signal.{key_discrete}
use zev_bot.Contacts.{Columns, ContactDb, ContactCache, RedactedPhoneEntry, info_of, put_push_name}
use zev_bot.Contacts.InStep.{InStep, row_of}
use zev_bot.Contacts.Puts.{Put, put_push_name-Put}
use zev_bot.Contacts.Operations.{Operation, get, get_all, put_push, put_phones, run, run-InStep}

abbrev ann : Columns
ann = record {
  first_name = some "Ann";
  full_name = none;
  push_name = some "a";
  business_name = none;
  redacted_phone = none;
}

abbrev phone_book : Conn ContactDb ContactCache
phone_book = record {
  db = (("me", "1@s"), ann) ∷ [];
  mem = ("1@s", info_of (some ann)) ∷ [];
  clock = 0;
}

phone_book-InStep : InStep "me" phone_book
unfolding lookup key_discrete string_discrete
phone_book-InStep user info h = at (string_discrete user "1@s") h
  where
    at :
        (d : Dec (user ≡ "1@s"))
        → ite d (some (info_of (some ann))) none ≡ some info
        → info ≡ info_of (row_of "me" user phone_book.db)
    at (yes q) h =
        sym (ap (value_or info) h) ∙ ap info_of (sym (ap (λ u. row_of "me" u phone_book.db) q))
    at (no n) h = ground (arith, h)

abbrev second_fails : Faults
second_fails n = if n == 1 then some (record { code = 1; rows = 0 }) else none

put_push_name-Put_example :
    Post
      (Put "me" "1@s"
        (λ c. record c { push_name = some "b" })
        (str_eq "a" "b")
        (false, "")
        (true, "a")
        phone_book.db)
      (InStep "me")
      (put_push_name "me" "1@s" "b" second_fails phone_book)
unfolding lookup key_discrete string_discrete
put_push_name-Put_example =
    put_push_name-Put "me" "1@s" "b" second_fails phone_book phone_book-InStep

abbrev phones : List RedactedPhoneEntry
phones = record { jid = "1@s"; redacted_phone = "+1" } ∷ []

abbrev calls : List Operation
calls = put_push "1@s" "b" ∷ put_phones phones ∷ get_all ∷ get "1@s" ∷ []

run-InStep_example :
    InStep "me" (run "me" sql_txn (λ es. es) (λ es. es) calls second_fails phone_book)
run-InStep_example =
    run-InStep "me" sql_txn (λ es. es) (λ es. es) calls second_fails phone_book
      (tt, ((ne_text "+1" "" refl, tt), (tt, (tt, tt)))) phone_book-InStep
