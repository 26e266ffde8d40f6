-- ===== src/Client/Store/Tests.antt =====
-- A local database on concrete messages.
use xlchat_project.Common.{◌≡◌, refl, false, some, codes, arith}
use xlchat_project.Ratchet.{aes_gcm_encrypt}
use xlchat_project.Client.{
  encrypt_text, is_envelope, looks_like_envelope, looks_like_group_message, looks_like_distribution,
}
use xlchat_project.Client.Store.{Store, load_message_content, upsert_message, heal_envelope_leaks}
use xlchat_project.Client.Store.Content.{Opens, load-upsert_message}
use xlchat_project.Client.Store.Hiding.{upsert_message_hides, heal_envelope_leaks_hides}
use xlchat_project.Client.Examples.{plain_crypto, parse, empty_store, hello, envelope, twelve}

opens : Opens plain_crypto
opens key iv plain sealed e = (ground (arith, e), ground (arith, e))

abbrev stored : Store
stored = (upsert_message plain_crypto parse empty_store hello (some twelve) (some twelve)).0

load-upsert_message_example : load_message_content plain_crypto stored 7 ≡ codes "hello"
unfolding upsert_message looks_like_envelope looks_like_group_message looks_like_distribution
    encrypt_text aes_gcm_encrypt
load-upsert_message_example =
    load-upsert_message plain_crypto parse empty_store hello twelve twelve 7 opens refl refl

upsert_message_hides_example :
    is_envelope parse (
      load_message_content plain_crypto
        (upsert_message plain_crypto parse
          (heal_envelope_leaks plain_crypto parse empty_store)
          envelope
          (some twelve)
          (some twelve)).0
        7)
    ≡ false
upsert_message_hides_example =
    upsert_message_hides plain_crypto parse (heal_envelope_leaks plain_crypto parse empty_store)
      envelope twelve twelve 7 opens refl
      (heal_envelope_leaks_hides plain_crypto parse empty_store 7)
