-- ===== src/Teaching/Lessons.antt =====
-- Every lesson that the program shows is there, and has all its texts.
use rookietop.Common.{
  ℕ, zero, suc, ◌<◌, ◌≤◌, ◌≡◌, refl, some, arith, length, get_elem?, List, [], ◌∷◌,
}
use rookietop.Teaching.{
  TeachingTopic, cpu_topic, memory_topic, load_topic, process_topic, pid_topic, process_state_topic,
  signals_topic, disk_topic, network_topic, topics, teach_count, teaching_get, teaching_state_name,
}

-- No text is empty.
pub record IsTold (topic : TeachingTopic) : Type 0 where
  pub title : 0 < length topic.title
  pub summary : 0 < length topic.summary
  pub what : 0 < length topic.what
  pub why : 0 < length topic.why
  pub how : 0 < length topic.how
  pub try_it : 0 < length topic.try_it
  pub source : 0 < length topic.source

cpu_topic-IsTold : IsTold cpu_topic
unfolding cpu_topic
cpu_topic-IsTold = record {
  title = omega arith;
  summary = omega arith;
  what = omega arith;
  why = omega arith;
  how = omega arith;
  try_it = omega arith;
  source = omega arith;
}

memory_topic-IsTold : IsTold memory_topic
unfolding memory_topic
memory_topic-IsTold = record {
  title = omega arith;
  summary = omega arith;
  what = omega arith;
  why = omega arith;
  how = omega arith;
  try_it = omega arith;
  source = omega arith;
}

load_topic-IsTold : IsTold load_topic
unfolding load_topic
load_topic-IsTold = record {
  title = omega arith;
  summary = omega arith;
  what = omega arith;
  why = omega arith;
  how = omega arith;
  try_it = omega arith;
  source = omega arith;
}

process_topic-IsTold : IsTold process_topic
unfolding process_topic
process_topic-IsTold = record {
  title = omega arith;
  summary = omega arith;
  what = omega arith;
  why = omega arith;
  how = omega arith;
  try_it = omega arith;
  source = omega arith;
}

pid_topic-IsTold : IsTold pid_topic
unfolding pid_topic
pid_topic-IsTold = record {
  title = omega arith;
  summary = omega arith;
  what = omega arith;
  why = omega arith;
  how = omega arith;
  try_it = omega arith;
  source = omega arith;
}

process_state_topic-IsTold : IsTold process_state_topic
unfolding process_state_topic
process_state_topic-IsTold = record {
  title = omega arith;
  summary = omega arith;
  what = omega arith;
  why = omega arith;
  how = omega arith;
  try_it = omega arith;
  source = omega arith;
}

signals_topic-IsTold : IsTold signals_topic
unfolding signals_topic
signals_topic-IsTold = record {
  title = omega arith;
  summary = omega arith;
  what = omega arith;
  why = omega arith;
  how = omega arith;
  try_it = omega arith;
  source = omega arith;
}

disk_topic-IsTold : IsTold disk_topic
unfolding disk_topic
disk_topic-IsTold = record {
  title = omega arith;
  summary = omega arith;
  what = omega arith;
  why = omega arith;
  how = omega arith;
  try_it = omega arith;
  source = omega arith;
}

network_topic-IsTold : IsTold network_topic
unfolding network_topic
network_topic-IsTold = record {
  title = omega arith;
  summary = omega arith;
  what = omega arith;
  why = omega arith;
  how = omega arith;
  try_it = omega arith;
  source = omega arith;
}

abbrev AreTold : List TeachingTopic → Type 0
AreTold [] = Unit
AreTold (topic ∷ rest) = IsTold topic × AreTold rest

topics-AreTold : AreTold topics
unfolding topics
topics-AreTold = (
  cpu_topic-IsTold,
  (
    memory_topic-IsTold,
    (
      load_topic-IsTold,
      (
        process_topic-IsTold,
        (
          pid_topic-IsTold,
          (
            process_state_topic-IsTold,
            (signals_topic-IsTold, (disk_topic-IsTold, (network_topic-IsTold, tt))),
          ),
        ),
      ),
    ),
  ),
)

get_elem?-IsTold :
    (all : List TeachingTopic) (i : ℕ)
    → AreTold all
    → i < length all
    → (topic : TeachingTopic) × (get_elem? all i ≡ some topic) × IsTold topic
get_elem?-IsTold [] i t h = absurd (omega arith)
get_elem?-IsTold (topic ∷ rest) zero t h = (topic, refl, t.0)
get_elem?-IsTold (topic ∷ rest) (suc i) t h = get_elem?-IsTold rest i t.1 (omega arith)

length-topics : length topics ≡ teach_count
unfolding topics
length-topics = refl

-- For every concept below teach_count there is a lesson, none of whose texts is empty.
pub teaching_get-IsTold :
    (concept : ℕ)
    → concept < teach_count
    → (topic : TeachingTopic) × (teaching_get concept ≡ some topic) × IsTold topic
unfolding teaching_get
teaching_get-IsTold concept h =
    let (topic, there, told) =
      get_elem?-IsTold topics concept topics-AreTold (omega (arith, length-topics)) in
    (topic, ground arith, told)

-- The word for a state fits its column of 13.
pub length-teaching_state_name : (state : ℕ) → length (teaching_state_name state) ≤ 13
unfolding teaching_state_name
length-teaching_state_name state = ground arith
