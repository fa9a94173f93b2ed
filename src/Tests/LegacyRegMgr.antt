-- ===== src/Tests/LegacyRegMgr.antt =====
-- Runs of the registry of legacy/src/regmgr.
use obliteration.Prelude.{
  ℕ, ◌≡◌, ◌↔◌, refl, inl, some, none, done, panic, ok, err, unfinished, arith,
}
use obliteration.Legacy.RegMgr.{
  Cred, has_key, has_later_key, lookup_in, lookup, is_special, Request, sys_regmgr_call,
  sys_workaround8849, is_nongame, is_libkernel_web, is_webprocess_webapp_or_webmas,
}
use obliteration.Legacy.RegMgr.Words.{construct, unlock, verify, decrypt}
use obliteration.Legacy.RegMgr.Entry.{RegEntry, entry, checksum_mismatched}
use obliteration.Legacy.RegMgr.Table.{entries}
use obliteration.Legacy.RegMgr.Lookup.{Answer, lookup-Answer}
use obliteration.Legacy.RegMgr.Codec.{encode, IsWordOf}
use obliteration.Legacy.RegMgr.Decode.{decrypt-iff_IsWordOf}
use obliteration.Legacy.RegMgr.Calls.{
  set_answer, is_web, sys_regmgr_call-set_answer, sys_workaround8849-total,
}

-- The fourth key of an entry of ten.
lookup-Answer_example : Answer entries 0x01830100 (lookup 0x01830100)
lookup-Answer_example = lookup-Answer 0x01830100

fourth_key : lookup 0x01830100 ≡ done (some (entry 0x1800100 0x0 4 0x200 16 2 0x0 0 0xa 0x10 0x0))
unfolding lookup lookup_in has_key has_later_key
fourth_key = refl

no_key : lookup 0x01830101 ≡ done none
unfolding lookup lookup_in has_key has_later_key
no_key = refl

abbrev word : ℕ
word = encode 0x0A030000 5 0x19

word_decrypts : decrypt word ≡ done (ok 0x0A030000)
unfolding decrypt verify unlock construct encode
word_decrypts = refl

decrypt-iff_IsWordOf_example : (decrypt word ≡ done (ok 0x0A030000)) ↔ IsWordOf word 0x0A030000
unfolding encode
decrypt-iff_IsWordOf_example = decrypt-iff_IsWordOf word 0x0A030000 (omega arith)

zero_word : decrypt 0 ≡ panic unfinished
unfolding decrypt verify unlock construct
zero_word = refl

abbrev game : Cred
game = record { paid = 0; caps = 0 }

abbrev browser : Cred
browser = record { paid = 0x380000001000000f; caps = 0 }

abbrev request : ℕ → ℕ → Request
request v2 value = record {
  op = 0x18;
  buf = 1;
  req = 1;
  reqlen = 16;
  v1 = word;
  v2 = v2;
  value = value;
}

abbrev target : RegEntry
target = entry 0xa030000 0x0 4 0x2020 1 2 0x0 0x48 0x0 0x0 0x333

sys_regmgr_call-set_answer_example :
    sys_regmgr_call game (request 0 0) ≡ set_answer target 0x0A030000 (is_web game) 0 0
unfolding is_nongame encode is_special
sys_regmgr_call-set_answer_example =
    sys_regmgr_call-set_answer game (request 0 0) 345 0x0A030000 target refl
      (refl, omega arith, omega arith, omega arith, omega arith, omega arith)
      (5, 0x19, omega arith, inl refl, omega arith, refl) refl (0, inl refl, refl)
      (refl, refl, refl, refl, refl)

same_value : sys_regmgr_call game (request 0 0) ≡ done 0
unfolding is_libkernel_web is_webprocess_webapp_or_webmas
same_value = sys_regmgr_call-set_answer_example

-- The entry does not let a process of the browser set it.
browser_refused : set_answer target 0x0A030000 (is_web browser) 0 0 ≡ done 0x800d021f
unfolding is_libkernel_web is_webprocess_webapp_or_webmas
browser_refused = refl

bad_sum : decrypt 1 ≡ done (err (checksum_mismatched 0 1))
unfolding decrypt verify
bad_sum = refl

sys_workaround8849-total_example : sys_workaround8849 0x19810000 ≡ done (ok 0)
sys_workaround8849-total_example = sys_workaround8849-total 0x19810000 (omega arith)
