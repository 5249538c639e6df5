-- ===== src/Discovery/Batches.antt =====
-- A batch of replies, and what the application is told of it.
use local_chat_xxx.Discovery.Defs.{
  Discovery, Reply, Report, await_fd, clear_list, deregistered_service, max_data_size,
  process_dns_service_browse_result, published_service, replies_taken, report,
  return_list_from_browse_results, service_browse_reply, service_str, strncpy,
}
use local_chat_xxx.Discovery.Browse.{IsPlainReply, browse_round_trip}
use local_chat_xxx.Common.{
  Bool, List, [], ap, append_assoc, ap₂, false, if◌then◌else◌, map, not, refl, true, ◌++◌, ◌+◌,
  ◌||◌, ◌∙◌, ◌∷◌, ◌≡◌,
}
use local_chat_xxx.Status.{Status, ok}
use local_chat_xxx.Common.Bytes.{Bytes}
use local_chat_xxx.Console.Defs.{ServiceInstance}

-- Replies without errors whose texts are read back.
abbrev pub AllPlain : List Reply → Type 0
AllPlain [] = Unit
AllPlain (r ∷ rs) = ((r.error ≡ false) × IsPlainReply r) × AllPlain rs

abbrev pub instance_of : Reply → ServiceInstance
instance_of r = record {
  service_name = r.service_name;
  reg_type = r.regtype;
  reply_domain = r.reply_domain;
}

-- Whether the last reply is about an added service.
abbrev pub last_added : Reply → List Reply → Bool
last_added r [] = r.add
last_added r (q ∷ qs) = last_added q qs

abbrev pub report_of : Bool → List ServiceInstance → Report
report_of true services = published_service services
report_of false services = deregistered_service services

stored_data : List Reply → List Bytes
stored_data rs = map (λ r. strncpy max_data_size (service_str r)) rs

-- The component after replies have been put into its list.
abbrev holding : Bool → List Bytes → Discovery → Discovery
holding b es d = record d { did_register = if b then 1 else 0; elements = es }

reply_stored :
    (r : Reply) (d : Discovery)
    → r.error ≡ false
    → service_browse_reply r d
      ≡ holding r.add (d.elements ++ (strncpy max_data_size (service_str r) ∷ [])) d
unfolding service_browse_reply
reply_stored r d e =
    ap
      (λ t.
        if t
        then d
        else holding r.add (d.elements ++ (strncpy max_data_size (service_str r) ∷ [])) d)
      e

taken :
    (r : Reply) (rs : List Reply) (d : Discovery)
    → AllPlain (r ∷ rs)
    → replies_taken (r ∷ rs) d ≡ holding (last_added r rs) (d.elements ++ stored_data (r ∷ rs)) d
unfolding replies_taken stored_data
taken r [] d h = reply_stored r d (h.0).0
taken r (q ∷ qs) d h =
    ap (replies_taken (q ∷ qs)) (reply_stored r d (h.0).0)
    ∙ taken q qs (holding r.add (d.elements ++ (strncpy max_data_size (service_str r) ∷ [])) d) h.1
    ∙ ap (λ e. holding (last_added q qs) e d)
        (append_assoc d.elements (strncpy max_data_size (service_str r) ∷ [])
          (stored_data (q ∷ qs)))

read_back :
    (rs : List Reply)
    → AllPlain rs
    → return_list_from_browse_results (stored_data rs) ≡ map instance_of rs
unfolding return_list_from_browse_results stored_data
read_back [] h = refl
read_back (r ∷ rs) h = ap₂ ◌∷◌ (browse_round_trip r (h.0).1) (read_back rs h.1)

-- While browsing is active, the library hands over a batch of replies without errors, whose texts
-- fit their fields and have neither spaces nor NULs, and the list is empty. The application gets
-- one report with the services of all replies, as they were reported and in their order; it is of
-- added services or of lost ones as the last reply says, whatever the others say. Then the list is
-- empty again and one more wait is pending.
pub batch_reported_as_last :
    (r : Reply) (rs : List Reply) (d : Discovery)
    → AllPlain (r ∷ rs)
    → d.is_browsing_active ≡ true
    → d.has_ref ≡ true
    → d.elements ≡ []
    → process_dns_service_browse_result false (r ∷ rs) d ≡ (
      ok,
      record d {
        reports = d.reports ++ (report_of (last_added r rs) (map instance_of (r ∷ rs)) ∷ []);
        did_register = 0;
        elements = [];
        waits = d.waits + 1;
      },
    )
unfolding process_dns_service_browse_result report await_fd clear_list
batch_reported_as_last r rs d h active ref none' =
    ap (λ t. if not t || not d.has_ref then (ok, d) else told (replies_taken (r ∷ rs) d)) active
    ∙ ap (λ t. if false || not t then (ok, d) else told (replies_taken (r ∷ rs) d)) ref
    ∙ ap told (taken r rs d h)
    ∙ ap (λ e. told (holding (last_added r rs) (e ++ stored_data (r ∷ rs)) d)) none'
    ∙ ap (λ ss. reported ss (holding (last_added r rs) (stored_data (r ∷ rs)) d))
        (read_back (r ∷ rs) h)
    ∙ ap (λ x. (ok, await_fd x)) (flagged (last_added r rs))
    ∙ ap
        (λ t.
          (ok, if not t || not d.has_ref then cleared else record cleared { waits = d.waits + 1 }))
        active
    ∙ ap (λ t. (ok, if false || not t then cleared else record cleared { waits = d.waits + 1 })) ref
  where
    reported : List ServiceInstance → Discovery → Status × Discovery
    reported ss x = (ok, await_fd (clear_list (report x.did_register ss x)))

    told : Discovery → Status × Discovery
    told x = reported (return_list_from_browse_results x.elements) x

    cleared : Discovery
    cleared = record d {
      reports = d.reports ++ (report_of (last_added r rs) (map instance_of (r ∷ rs)) ∷ []);
      did_register = 0;
      elements = [];
    }

    flagged :
        (b : Bool)
        → clear_list (
            report
              (if b then 1 else 0)
              (map instance_of (r ∷ rs))
              (holding b (stored_data (r ∷ rs)) d))
          ≡ record d {
            reports = d.reports ++ (report_of b (map instance_of (r ∷ rs)) ∷ []);
            did_register = 0;
            elements = [];
          }
    flagged true = refl
    flagged false = refl
