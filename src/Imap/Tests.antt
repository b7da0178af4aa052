-- ===== src/Imap/Tests.antt =====
-- The allowlist of internal/auth/imap.go at concrete addresses.
use webridge.Prelude.{◌≡◌, ◌≢◌, refl, true, false, [], text, ◌==◌, arith}
use webridge.Strings.{
  to_lower, equal_fold, trim_space, after_last, lower_byte, is_space, trim_left, trim_right,
}
use webridge.Samples.{imap}
use webridge.Imap.{imap_domain_allowed}

domain_given : text "Alt.ORG" ≢ []
unfolding text
domain_given = ground arith

allowed :
    (imap_domain_allowed imap (text "a@b@Alt.ORG") ≡ true)
    × (imap_domain_allowed imap (text "a@alt.org@evil.com") ≡ false)
unfolding imap_domain_allowed after_last equal_fold to_lower trim_space lower_byte is_space
    trim_left trim_right text ◌==◌
allowed = (refl, refl)
