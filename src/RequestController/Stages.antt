-- ===== src/RequestController/Stages.antt =====
-- The conditions that the stages of `Reconcile` set, and what the next run reads from them.
use cert_manager_essendi_xc.Base.{
  true, false, List, ◌∷◌, ◌≡◌, ◌≢◌, refl, arith, some, none, find, All,
}
use cert_manager_essendi_xc.Base.Text.{Text, codes, has_prefix, after_colon, trim_space}
use cert_manager_essendi_xc.Api.{
  issuer_condition_status_submitted, issuer_condition_status_processing,
  issuer_condition_status_approved, issuer_condition_status_signed,
}
use cert_manager_essendi_xc.IssuerUtil.{
  says_submitted, says_signed, is_submitted, is_signed, get_submitted_condition,
  get_signed_condition,
}
use cert_manager_essendi_xc.IssuerUtil.Submitted.{find-Puts, find-Puts_none, find-none-All}
use cert_manager_essendi_xc.Request.{Condition, ready, pending, is_false, Puts}
use cert_manager_essendi_xc.RequestController.{status_message, message_url, url_of}

abbrev pub pending_with : Text → Condition
pending_with message = record {
  type = ready;
  status = is_false;
  reason = pending;
  message = message;
}

abbrev pub submitted_with : Text → Condition
submitted_with url =
    pending_with (status_message issuer_condition_status_submitted (codes ", status: ") url)

abbrev pub processing_with : Text → Condition
processing_with url =
    pending_with (status_message issuer_condition_status_processing (codes ", resource: ") url)

abbrev pub approved_with : Text → Condition
approved_with url =
    pending_with (status_message issuer_condition_status_approved (codes ", resource: ") url)

abbrev pub signed_with : Text → Condition
signed_with url =
    pending_with (status_message issuer_condition_status_signed (codes ", resource: ") url)

trim_space-blank : (s : Text) → trim_space (b' ' ∷ s) ≡ trim_space s
unfolding trim_space
trim_space-blank s = refl

-- The URL is read back from each message, blanks at its ends aside.
module _ (url : Text) (trimmed : trim_space url ≡ url) where
  submitted_with_url : message_url (submitted_with url) ≡ some url
  unfolding message_url codes after_colon
  submitted_with_url = rw (trim_space-blank, trimmed) refl

  processing_with_url : message_url (processing_with url) ≡ some url
  unfolding message_url codes after_colon
  processing_with_url = rw (trim_space-blank, trimmed) refl

  approved_with_url : message_url (approved_with url) ≡ some url
  unfolding message_url codes after_colon
  approved_with_url = rw (trim_space-blank, trimmed) refl

  signed_with_url : message_url (signed_with url) ≡ some url
  unfolding message_url codes after_colon
  signed_with_url = rw (trim_space-blank, trimmed) refl

-- The next run will ask for the state of the task at `url`.
pub record IsPolling (url : Text) (cs : List Condition) : Type 0 where
  pub unsigned : is_signed cs ≡ false
  pub submitted : is_submitted cs ≡ true
  pub url_read : url_of (get_submitted_condition cs) ≡ some url

-- The next run will fetch the certificate from `url`.
pub record IsFetching (url : Text) (cs : List Condition) : Type 0 where
  pub signed : is_signed cs ≡ true
  pub url_read : url_of (get_signed_condition cs) ≡ some url

-- A condition that makes the next run poll `url`.
record Announces (url : Text) (c : Condition) : Type 0 where
  speaks : says_submitted c ≡ true
  unsigned : says_signed c ≡ false
  type : c.type ≡ ready
  url_read : message_url c ≡ some url

pub is_signed-find : (cs : List Condition) → is_signed cs ≡ false → find says_signed cs ≡ none
unfolding is_signed get_signed_condition
is_signed-find cs h = ground arith

pub is_submitted-find :
    (cs : List Condition) → is_submitted cs ≡ false → find says_submitted cs ≡ none
unfolding is_submitted get_submitted_condition
is_submitted-find cs h = ground arith

announced :
    (url : Text) (c : Condition) {cs cs' : List Condition}
    → Announces url c
    → Puts c cs cs'
    → is_signed cs ≡ false
    → All (λ d. d.type ≢ c.type → says_submitted d ≡ false) cs
    → IsPolling url cs'
unfolding is_signed get_signed_condition is_submitted get_submitted_condition
announced url c {cs} {cs'} a p h q =
    let e = find-Puts says_submitted c p q a.speaks in
    let n = find-Puts_none says_signed c p (is_signed-find cs h) a.unsigned in
    record { unsigned = rw n refl; submitted = rw e refl; url_read = rw e a.url_read }

module _ (url : Text) (trimmed : trim_space url ≡ url) where
  submitted_with-Announces : Announces url (submitted_with url)
  unfolding says_submitted says_signed codes has_prefix
  submitted_with-Announces = record {
    speaks = refl;
    unsigned = refl;
    type = refl;
    url_read = submitted_with_url url trimmed;
  }

  processing_with-Announces : Announces url (processing_with url)
  unfolding says_submitted says_signed codes has_prefix
  processing_with-Announces = record {
    speaks = refl;
    unsigned = refl;
    type = refl;
    url_read = processing_with_url url trimmed;
  }

  approved_with-Announces : Announces url (approved_with url)
  unfolding says_submitted says_signed codes has_prefix
  approved_with-Announces = record {
    speaks = refl;
    unsigned = refl;
    type = refl;
    url_read = approved_with_url url trimmed;
  }

  module _ {cs cs' : List Condition} (unsigned : is_signed cs ≡ false) where
    pub submitted_with-IsPolling :
        Puts (submitted_with url) cs cs' → is_submitted cs ≡ false → IsPolling url cs'
    submitted_with-IsPolling p h =
        announced url (submitted_with url) submitted_with-Announces p unsigned
          (find-none-All says_submitted ready cs (is_submitted-find cs h))

    pub processing_with-IsPolling :
        Puts (processing_with url) cs cs'
        → All (λ d. d.type ≢ ready → says_submitted d ≡ false) cs
        → IsPolling url cs'
    processing_with-IsPolling p h =
        announced url (processing_with url) processing_with-Announces p unsigned h

    pub approved_with-IsPolling :
        Puts (approved_with url) cs cs'
        → All (λ d. d.type ≢ ready → says_submitted d ≡ false) cs
        → IsPolling url cs'
    approved_with-IsPolling p h =
        announced url (approved_with url) approved_with-Announces p unsigned h

    pub signed_with-IsFetching : Puts (signed_with url) cs cs' → IsFetching url cs'
    unfolding says_signed codes has_prefix is_signed get_signed_condition
    signed_with-IsFetching p =
        let e =
          find-Puts says_signed (signed_with url) p
            (find-none-All says_signed ready cs (is_signed-find cs unsigned)) refl in
        record { signed = rw e refl; url_read = rw e (signed_with_url url trimmed) }
