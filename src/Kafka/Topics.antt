-- ===== src/Kafka/Topics.antt =====
-- kafka/topics.go: the name of a topic's dead-letter topic.
use Prim.Native.String.{String, ◌++◌}

unfoldable pub dlq_topic : String → String
dlq_topic topic = topic ++ ".dlq"
