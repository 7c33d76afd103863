-- ===== src/Lib.antt =====
-- TalentRank: the demo server that ranks CVs against a job description, in the Next.js front end.
--
-- A job holds a description, the requirements parsed from it, the CVs uploaded to it and its last
-- ranking run. Jobs live in a global store that is written to a file after each change. A CV is
-- analyzed by the AI service; a ranking asks the AI service for baseline scores, lets Gemini or else
-- Groq score the best candidates again, and stores the result as a run. A second route edits job
-- descriptions in conversations, by Gemini, by Groq or by local rules.
--
-- Files, with the code they are about:
--   Prelude     shared names, and lists measured by native numbers.
--   Js          what the code uses of the language: strings as UTF-16 units (Text), decimal numerals
--               (Decimal), exact binary64 numbers with toFixed (Number), Map and Set (Map), and a
--               stable sort by a comparator (Sorting).
--   Host        what the server is given from outside, and its state. Action is code that changes
--               the state and may throw, Keeps and Outcomes are rules for its invariants.
--   Store       frontend/app/api/ranking-test/route.ts: stripDocumentData, persistDemoStore,
--               loadDemoStoreFromDisk, readDemoStore, resetDemoStore, saveJob, getJob, and the types.
--   Upload      the same file: analyzeFile, fieldValue, cleanPreviewText, buildPreviewText,
--               buildDocumentPreview, analyzeFilesForJob.
--   Rerank      the same file: geminiKeys to aiRerankStatus (Keys), compactCandidate to
--               buildAIRankingInput (Input), clampScore and the normalizers (Values),
--               callGeminiRanking and callGroqRanking (Providers), buildAIRankingResponse (Merge).
--   Ranking     the same file: postJSON, createJob, buildRun, rankJob.
--   Routes      the same file: responseError, GET, POST.
--   Assistant   frontend/app/api/jd-assistant/route.ts.
--   Pages       frontend/lib/demo-ranking.ts (Requests) and the handlers of
--               frontend/app/jobs/new/page.tsx (NewJob), frontend/app/jobs/page.tsx (JobList) and
--               frontend/app/jobs/[jobId]/page.tsx (Job), with the server at the other end; and
--               frontend/components/demo-shell.tsx (Shell): importing CVs, the place of the tools
--               (Shell.Tools) and seedWorkspace (Shell.Workspace).
--   Seeding     scripts/lib/candidate-generator.mjs: the sources of names and resumes (Sources, Resume,
--               Candidates), shuffling and sampling (Shuffle, Sample), mapWithConcurrency (Workers),
--               the synthetic profiles and their PDF (Profiles, Wrap, Pdf, Files, Names); and seedJob
--               of scripts/seed-ranking-variety.mjs with its requests (Jobs).
--   Interviewer frontend/app/interviewer/page.tsx: its handlers (Page) and what the user does, what is
--               heard and when answers come as steps in any order (Page.Steps), leaving the page and
--               coming back (Visits); and, under
--               frontend/lib/copilot/services, speechService.js (Speakers), aiService.js and
--               handleMessage of liveApiService.js (Backend), with data/jobPresets.ts (Page.Steps); and,
--               under frontend/components/copilot, transcript-panel.tsx, settings-center.tsx and
--               copilot-panel.tsx (Panels) and the report of summary-modal.tsx (Report).
--   Examples    the theorems at small inputs.
--
-- State and time. The state is the global variable, the store file, the files of the documents and a
-- count of calls. Each reading of the clock, random identifier, disk operation and request is a call,
-- answered by the host by its number; nothing is assumed of the answers but what a theorem names.
-- The server handles requests one after another, but for the two uploads of Routes.Interleaving, whose
-- lookups and saves come in any order, as the awaits between them allow.
-- The page of a job is a state machine, whose steps come in any order; so is the interviewer page, whose
-- requests are tasks that may be answered in any order, and so are the workers of mapWithConcurrency,
-- which share a cursor and the results. A callback of the interviewer page keeps the values of the
-- rendering that it was made in.
--
-- Loops. The loops over files, results and keys are structural recursion. The provider loops count
-- the attempts that are left, from the number of keys or from 3, which is the bound of the source's
-- loop, so that no fuel can run out. The loops over pages of rows and over batches of files run on
-- fuel, one unit more than there are rows or files, and say so when it runs out. Rounding to a
-- double searches for an exponent up to 1074, which every value below 2 ^ 53 stays under.
--
-- Numbers. A score is an exact multiple of 2 ^ -1074; the two zeros are one value. Counts and ranks
-- are natural numbers. A numbered key's number is read exactly. A call of Math.random is the 53 bits
-- of its fraction, and its product with a number is rounded as a double.
--
-- Not modelled: the mean score and the verdict of a report without a score of its own, which are given
-- as texts; an event of the interviewer page that comes before a change is rendered; a failure to read the
-- bytes of an uploaded file, which is in memory by then; a place of the pointer that is no whole number
-- of pixels; the waits between attempts and the lines on the console, which change no state; the
-- parsing of forms, URLs and JSON, which the host does; Unicode case mapping beyond the patterns of
-- the code; the markup of the pages and the clipboard; the stream of the microphone, the recognizer of
-- speech and the sockets of the browser; the browser that renders resumes and what the scripts print;
-- the Go backend and the Python service.
pub mod Prelude
pub mod Js
pub mod Host
pub mod Rerank
pub mod Store
pub mod Upload
pub mod Ranking
pub mod Routes
pub mod Assistant
pub mod Pages
pub mod Seeding
pub mod Interviewer
pub mod Examples
